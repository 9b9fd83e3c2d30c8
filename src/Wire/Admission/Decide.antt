-- ===== src/Wire/Admission/Decide.antt =====
-- wire/admission.py: the checks of an approval and of a signed governance block, and `admit`.
pub mod Laws
pub mod Receipts
pub mod Approval
pub mod Pinned
pub mod Admitted
use a2a_compliance.Wire.Admission.{
  ApprovalFinding, GovernanceFinding, AdmissionDecision, ApproverAuthority, preflight_reasons,
  AdmitArguments, approval_missing, AdmissionReason, index_and_verify, AdmissionResult,
  obligation_reasons, approval_finding, decision_refused, approval_not_bound,
  signer_without_identity, signer_unknown, governance_finding, boundary, approver_unauthorized,
  approval_rejected, block_signature_failed, decision_review_required, wire_ports,
  scope_unrecognised, forged_author, block_digest_mismatch, decision_admitted, signed_by_maker,
  signer_type_unbound, signer_role_unbound,
}
use a2a_compliance.Prelude.{
  String, Option, Bool, List, false, some, ◌||◌, none, if◌then◌else◌, not, is_empty, ◌∷◌, ◌==◌, [],
  ◌++◌,
}
use a2a_compliance.Json.{
  Fields, Value, Items, nil, arr, is_str, get_in, cons, field, get, str, obj, end, truthy, put,
}
use a2a_compliance.Host.{Host}
use a2a_compliance.Team.Plan.{ControlPlan}
use a2a_compliance.Wire.Verification.{verify_human_approval, rejected, approved}
use a2a_compliance.Wire.Signing.{verify_signature}
use a2a_compliance.Wire.Trust.{authorizes_type, authorizes_role, TrustBinding, TrustStore}
use a2a_compliance.Governance.Signed.{block_digest, subject_fields, SignedGovernanceBlock}
use a2a_compliance.Governance.{rule, GovernanceBlock, SteerDecision, refuse, route_human}
use a2a_compliance.Lifecycle.Preview.{required_tools}
use a2a_compliance.Lifecycle.Owners.{preflight_tools}

-- The answer of `_approval_findings`; `approval_raises` is a reservation value that has no tuple.
pub data ApprovalCheck : Type 0 where
  approval_fails : ApprovalFinding → ApprovalCheck
  approval_counts : Items → ApprovalCheck
  approval_raises : ApprovalCheck

-- The answer of `_governance_block_findings`; `block_raises` is a block with no canonical form.
pub data GovernanceCheck : Type 0 where
  block_fails : GovernanceFinding → GovernanceCheck
  block_passes : Option String → GovernanceCheck
  block_raises : GovernanceCheck

characters : String → Items
characters String.[] = nil
characters (String.◌∷◌ c s) = cons (str (String.◌∷◌ c "")) (characters s)

keys : Fields → Items
keys end = nil
keys (field k v d) = cons (str k) (keys d)

-- `tuple(approval.get("reservations") or ())`
unfoldable pub tuple_of : Value → Option Items
unfolding characters keys
tuple_of (arr vs) = some vs
tuple_of (str s) = some (characters s)
tuple_of (obj d) = some (keys d)
tuple_of v = if truthy v then none else some nil

abbrev pub permits : Option ApproverAuthority → String → String → Value → Bool
permits none kind id role = false
permits (some authority) kind id role = authority kind (some id) role

abbrev pub recognised_scope : Value → Bool
recognised_scope v = is_str v "next-action" || is_str v "session"

-- The tests on an approval that `verify_human_approval` accepted for an identity.
unfoldable pub approval_tests :
    String → String → Option ApproverAuthority → Fields → String → ApprovalCheck
approval_tests digest kind authority a id =
    let role = get_in "role" (get "approver" a) in
    let counted : ApprovalCheck = elim (tuple_of (get "reservations" a)) [
      | none ↦ approval_raises
      | some vs ↦ approval_counts vs
    ] in
    if not (is_str (get "permitted_action_digest" a) digest)
    then approval_fails approval_not_bound
    else if not (permits authority kind id role)
    then approval_fails (approver_unauthorized id role)
    else if not (recognised_scope (get "scope" a))
    then approval_fails scope_unrecognised
    else counted

module _ (host : Host) where
  -- `_approval_findings`
  unfoldable pub approval_findings : ControlPlan → AdmitArguments → Option Fields → ApprovalCheck
  unfolding verify_human_approval approval_tests
  approval_findings p args none = approval_fails approval_missing
  approval_findings p args (some a) =
      elim (verify_human_approval host args.ports args.trust_store none "human" (obj a)) [
        | rejected errors ↦ approval_fails (approval_rejected errors)
        | approved id ↦ approval_tests p.action_digest p.target_kind args.approver_authority a id
      ]

  -- The signature of a block, once its key and its author are accepted.
  block_signature : SignedGovernanceBlock → String → TrustBinding → GovernanceCheck
  unfolding verify_signature subject_fields
  block_signature b digest binding =
      let errors =
        verify_signature host
          (put "signature" (str b.signature)
            (subject_fields b.digest b.signer_key_id b.signer_identity))
          binding.public_key in
      if not (is_empty errors)
      then block_fails (block_signature_failed errors)
      else block_passes (some digest)

  -- The checks on the binding of the block's key.
  unfoldable pub binding_check :
      SignedGovernanceBlock → String → String → String → TrustBinding → GovernanceCheck
  unfolding block_signature authorizes_type authorizes_role
  binding_check b digest maker_id role binding =
      let signature = block_signature b digest binding in
      let identified : GovernanceCheck = elim binding.identity [
        | none ↦ block_fails signer_without_identity
        | some id ↦
            if not (b.signer_identity == id)
            then block_fails forged_author
            else if id == maker_id
            then block_fails signed_by_maker
            else signature
      ] in
      if not (authorizes_type binding "GovernanceBlock")
      then block_fails signer_type_unbound
      else if not (authorizes_role binding (str role))
      then block_fails signer_role_unbound
      else identified

  -- `_governance_block_findings`
  unfoldable pub governance_block_findings :
      GovernanceBlock
      → Option SignedGovernanceBlock
      → String
      → TrustStore
      → String
      → GovernanceCheck
  unfolding binding_check block_digest
  governance_block_findings g none maker_id store role = block_passes none
  governance_block_findings g (some b) maker_id store role = elim (block_digest host g) [
    | none ↦ block_raises
    | some digest ↦
        let resolved : GovernanceCheck = elim (store (str b.signer_key_id)) [
          | none ↦ block_fails signer_unknown
          | some binding ↦ binding_check b digest maker_id role binding
        ] in
        if not (b.digest == digest) then block_fails block_digest_mismatch else resolved
  ]

abbrev pub not_admitted : AdmissionDecision → ControlPlan → List AdmissionReason → AdmissionResult
not_admitted decision p reasons = record {
  decision = decision;
  action_digest = p.action_digest;
  kind = p.target_kind;
  reasons = reasons;
  approval_reservations = nil;
  governance_block_digest = none;
}

-- The last step of `admit`: no reason is left, or a review is required.
unfoldable pub conclude :
    ControlPlan → Option String → List AdmissionReason → Items → AdmissionResult
conclude p pinned reasons reservations =
    if not (is_empty reasons) then not_admitted decision_review_required p reasons else record {
      decision = decision_admitted;
      action_digest = p.action_digest;
      kind = p.target_kind;
      reasons = [];
      approval_reservations = reservations;
      governance_block_digest = pinned;
    }

module _ (host : Host) (str_of : Value → String) where
  -- The reasons of the receipts and the obligations.
  unfoldable pub plan_reasons : ControlPlan → AdmitArguments → List Value → List AdmissionReason
  unfolding preflight_reasons index_and_verify obligation_reasons
  plan_reasons p args receipts =
      preflight_reasons (required_tools p.profile preflight_tools)
        (index_and_verify host str_of (wire_ports args) p.action_digest receipts [])
      ++ obligation_reasons p.obligations args.acknowledged_obligations

  -- `admit` once the governance block has passed; a kind of another ruling needs no approval.
  unfoldable pub admit_within :
      ControlPlan
      → AdmitArguments
      → List Value
      → SteerDecision
      → Option String
      → Option AdmissionResult
  unfolding approval_findings plan_reasons conclude
  admit_within p args receipts route_human pinned =
      elim (approval_findings host p args args.approval) [
        | approval_raises ↦ none
        | approval_fails e ↦
            some (conclude p pinned (approval_finding e ∷ plan_reasons p args receipts) nil)
        | approval_counts vs ↦ some (conclude p pinned (plan_reasons p args receipts) vs)
      ]
  admit_within p args receipts _ pinned =
      some (conclude p pinned (plan_reasons p args receipts) nil)

  -- `admit` once the kind is not refused
  unfoldable pub admit_checked :
      ControlPlan
      → AdmitArguments
      → List Value
      → SteerDecision
      → GovernanceCheck
      → Option AdmissionResult
  unfolding admit_within
  admit_checked p args receipts decision block_raises = none
  admit_checked p args receipts decision (block_fails e) =
      some (not_admitted decision_refused p (governance_finding e ∷ []))
  admit_checked p args receipts decision (block_passes pinned) =
      admit_within p args receipts decision pinned

  -- `admit`; `none` is an exception of the digest or of the tuple of reservations.
  unfoldable pub admit : ControlPlan → AdmitArguments → List Value → Option AdmissionResult
  unfolding rule admit_checked governance_block_findings
  admit p args receipts =
      let ruling = rule args.governance p.target_kind in
      let rest = admit_checked p args receipts ruling.decision (
        governance_block_findings host args.governance args.signed_governance_block p.maker_id
          args.trust_store args.policy_author_role) in
      elim ruling.decision [
        | refuse ↦ some (not_admitted decision_refused p (boundary ruling.reason ∷ []))
        | _ ↦ rest
      ]
