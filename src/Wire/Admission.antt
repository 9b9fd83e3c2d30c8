-- ===== src/Wire/Admission.antt =====
-- wire/admission.py: the verified admission decision over signed receipts and approvals.
pub mod Tests
pub mod Decide
pub mod Permit
use a2a_compliance.Lifecycle.Preview.{select}
use a2a_compliance.Prelude.{
  String, List, Option, false, Bool, some, none, if◌then◌else◌, ◌∷◌, ◌++◌, not, [], ◌==◌, is_none,
  contains, is_empty, ◌||◌,
}
use a2a_compliance.Json.{Value, Fields, Items, has, obj, is_str, get, str, truthy}
use a2a_compliance.Governance.{RulingReason, GovernanceBlock}
use a2a_compliance.Wire.Checks.{Ports, VerificationError}
use a2a_compliance.Host.{Host}
use a2a_compliance.Wire.Signing.{SignatureError}
use a2a_compliance.Wire.Trust.{TrustStore, member}
use a2a_compliance.Text.{remove_prefix}
use a2a_compliance.Wire.Verification.{verify}
use a2a_compliance.Governance.Signed.{SignedGovernanceBlock}

pub data AdmissionDecision : Type 0 where
  decision_admitted decision_review_required decision_refused : AdmissionDecision

-- The port `ApproverAuthority`: its method `authorizes`.
abbrev pub ApproverAuthority : Type 0
ApproverAuthority = String → Option String → Value → Bool

-- The findings of `_index_and_verify`, of `_approval_findings` and of `_governance_block_findings`.
pub data InvalidReceipt : Type 0 where
  receipt_not_an_object : InvalidReceipt
  receipt_rejected : Value → List VerificationError → InvalidReceipt
  receipt_of_other_action : Value → InvalidReceipt
  receipt_duplicate : String → InvalidReceipt

pub data ApprovalFinding : Type 0 where
  approval_missing approval_not_bound scope_unrecognised : ApprovalFinding
  approval_rejected : List VerificationError → ApprovalFinding
  approver_unauthorized : String → Value → ApprovalFinding

pub data GovernanceFinding : Type 0 where
  block_digest_mismatch signer_unknown signer_type_unbound signer_role_unbound : GovernanceFinding
  signer_without_identity forged_author signed_by_maker : GovernanceFinding
  block_signature_failed : List SignatureError → GovernanceFinding

pub data AdmissionReason : Type 0 where
  boundary : RulingReason → AdmissionReason
  governance_finding : GovernanceFinding → AdmissionReason
  approval_finding : ApprovalFinding → AdmissionReason
  invalid_preflight : List InvalidReceipt → AdmissionReason
  missing_preflight unresolved_preflight failed_preflight : List String → AdmissionReason
  unacknowledged_obligations : List String → AdmissionReason

pub record AdmissionResult : Type 0 where
  pub decision : AdmissionDecision
  pub action_digest : String
  pub kind : String
  pub reasons : List AdmissionReason
  pub approval_reservations : Items
  pub governance_block_digest : Option String

-- The keyword arguments of `admit`; `ports` has the revocation store and the time.
pub record AdmitArguments : Type 0 where
  pub governance : GovernanceBlock
  pub trust_store : TrustStore
  pub ports : Ports
  pub approval : Option Fields
  pub approver_authority : Option ApproverAuthority
  pub acknowledged_obligations : List String
  pub signed_governance_block : Option SignedGovernanceBlock
  pub policy_author_role : String

-- The ports that `verify` is called with.
abbrev pub wire_ports : AdmitArguments → Ports
wire_ports args = record args.ports { trust_store = some args.trust_store }

abbrev pub Receipts : Type 0
Receipts = List (String × Fields)

abbrev pub find : String → Receipts → Option Fields
find k [] = none
find k ((j, r) ∷ l) = if j == k then some r else find k l

-- `receipt.get("capability", "?")`
abbrev pub label_of : Fields → Value
label_of r = if has "capability" r then get "capability" r else str "?"

module _ (host : Host) (str_of : Value → String) where
  -- `str(label).removeprefix("tool:")`
  unfoldable pub receipt_key : Fields → String
  unfolding remove_prefix
  receipt_key r = remove_prefix "tool:" (str_of (label_of r))

  -- Why a receipt is not indexed, in the order of the tests.
  unfoldable pub receipt_finding : Ports → String → Receipts → Fields → Option InvalidReceipt
  unfolding verify receipt_key
  receipt_finding ports digest indexed r =
      let errors = verify host ports (obj r) "StageReceipt" in
      if not (is_empty errors)
      then some (receipt_rejected (label_of r) errors)
      else if not (is_str (get "action_digest" r) digest)
      then some (receipt_of_other_action (label_of r))
      else if not (is_none (find (receipt_key r) indexed))
      then some (receipt_duplicate (receipt_key r))
      else none

  -- `_index_and_verify`, from the index of the receipts before
  unfoldable pub index_and_verify :
      Ports → String → List Value → Receipts → Receipts × List InvalidReceipt
  unfolding receipt_finding receipt_key
  index_and_verify ports digest [] indexed = (indexed, [])
  index_and_verify ports digest (obj r ∷ rs) indexed =
      let skipped = index_and_verify ports digest rs indexed in
      let kept = index_and_verify ports digest rs ((receipt_key r, r) ∷ indexed) in
      elim (receipt_finding ports digest indexed r) [
        | none ↦ kept
        | some e ↦ (skipped.0, e ∷ skipped.1)
      ]
  index_and_verify ports digest (_ ∷ rs) indexed =
      let skipped = index_and_verify ports digest rs indexed in
      (skipped.0, receipt_not_an_object ∷ skipped.1)

-- `status in {"OPEN", "ERROR"}` and `status == "NOT_SATISFIED"` of an indexed receipt
abbrev pub is_unresolved : Option Fields → Bool
is_unresolved none = false
is_unresolved (some r) = is_str (get "status" r) "OPEN" || is_str (get "status" r) "ERROR"

abbrev pub is_failed : Option Fields → Bool
is_failed none = false
is_failed (some r) = is_str (get "status" r) "NOT_SATISFIED"

-- `if names: reasons.append(…)`
abbrev pub reported {ℓ} : {A : Type ℓ} → (List A → AdmissionReason) → List A → List AdmissionReason
reported reason [] = []
reported reason (x ∷ xs) = reason (x ∷ xs) ∷ []

-- The reasons from the preflight receipts.
unfoldable pub preflight_reasons :
    List String → Receipts × List InvalidReceipt → List AdmissionReason
unfolding select
preflight_reasons required (indexed, invalid) =
    reported invalid_preflight invalid
    ++ (reported missing_preflight (select (λ n. is_none (find n indexed)) required)
        ++ (reported unresolved_preflight (select (λ n. is_unresolved (find n indexed)) required)
            ++ reported failed_preflight (select (λ n. is_failed (find n indexed)) required)))

-- The reasons from the obligations of the plan.
unfoldable pub obligation_reasons : List String → List String → List AdmissionReason
unfolding select
obligation_reasons obligations acknowledged =
    reported unacknowledged_obligations (select (λ o. not (contains acknowledged o)) obligations)

-- `InMemoryApproverAuthority`: `allow` and `authorizes`
abbrev pub InMemoryApproverAuthority : Type 0
InMemoryApproverAuthority = List (String × List String)

unfoldable pub allow : InMemoryApproverAuthority → String → String → InMemoryApproverAuthority
allow [] kind role = (kind, role ∷ []) ∷ []
allow ((k, roles) ∷ s) kind role =
    let more = allow s kind role in if k == kind then (k, role ∷ roles) ∷ s else (k, roles) ∷ more

roles_for : InMemoryApproverAuthority → String → List String
roles_for [] kind = []
roles_for ((k, roles) ∷ s) kind = if k == kind then roles else roles_for s kind

unfoldable pub authorizes : InMemoryApproverAuthority → ApproverAuthority
unfolding roles_for
authorizes s kind none role = false
authorizes s kind (some id) role =
    if id == "" || not (truthy role) then false else member (roles_for s kind) role
