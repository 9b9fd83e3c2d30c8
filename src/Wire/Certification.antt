-- ===== src/Wire/Certification.antt =====
-- wire/certification.py: the certificate of a run, behind a new verification of all of its evidence.
pub mod Certify
pub mod Laws
pub mod Certified
pub mod Tests
use a2a_compliance.Prelude.{
  String, List, ℕ, Option, Bool, ◌∷◌, not, some, if◌then◌else◌, contains, ◌++◌, [], none, is_none,
  is_empty, ◌||◌, ◌==◌, ◌&&◌,
}
use a2a_compliance.Wire.Checks.{VerificationError, Ports}
use a2a_compliance.Wire.Trust.{TrustStore, RevocationStore}
use a2a_compliance.Wire.Admission.Permit.{Issuer}
use a2a_compliance.Host.{Host, DateTime}
use a2a_compliance.Json.{Value, Fields, is_str, get_in, get, obj}
use a2a_compliance.Json.Equality.{same}
use a2a_compliance.Wire.Verification.{verify}

-- The port `FreshnessPort`: its method `is_fresh`, at an instant.
abbrev pub FreshnessPort : Type 0
FreshnessPort = String → ℕ → Bool

-- `InMemoryFreshness`: the set of stale sources
unfoldable pub mark_stale : List String → String → List String
mark_stale stale source_id = source_id ∷ stale

unfoldable pub is_fresh : List String → FreshnessPort
is_fresh stale source_id at = not (contains stale source_id)

pub data CertifyReason : Type 0 where
  permit_not_object reconciliation_not_object : CertifyReason
  not_verified : VerificationError → CertifyReason
  not_enforcement : Value → CertifyReason
  nothing_dispatched receipt_not_object : CertifyReason
  receipt_unbound : Value → CertifyReason
  reconciliation_unbound reconciliation_not_clean : CertifyReason
  not_discharged : String → CertifyReason
  no_freshness_port : CertifyReason
  stale_source : String → CertifyReason
  same_as_permit_issuer same_as_reconciler same_as_recorder : CertifyReason
  same_as_executor same_as_approver : Value → CertifyReason

-- The keyword arguments of `certify`.
pub record CertifyArguments : Type 0 where
  pub trust_store : TrustStore
  pub revocation_store : Option RevocationStore
  pub discharge_receipts : List Value
  pub blocking_obligations : List String
  pub mandatory_sources : List String
  pub freshness : Option FreshnessPort
  pub approval : Option Fields
  pub signer : Issuer
  pub certifier_role : String
  pub run_id : String
  pub nonce : String
  pub prev_digest : Option String
  pub now : Option DateTime
  pub clock : ℕ
  pub schema_version : String
  pub certificate_ttl : ℕ

abbrev pub certify_ports : CertifyArguments → Ports
certify_ports args = record {
  trust_store = some args.trust_store;
  revocation_store = args.revocation_store;
  now = args.now;
  clock = args.clock;
}

-- whether the signer has the identity or the key that an object names
abbrev pub is_signer : Issuer → Fields → Bool
is_signer signer d =
    is_str (get "issuer" d) signer.identity || is_str (get "key_id" d) signer.key_id

unfoldable pub receipt_conflicts : Issuer → Fields → List CertifyReason
receipt_conflicts signer receipt =
    let executor_id = get_in "id" (get "executor" receipt) in
    (if not (signer.identity == "") && is_str executor_id signer.identity
      then same_as_executor executor_id ∷ []
      else [])
    ++ (if is_signer signer receipt then same_as_recorder ∷ [] else [])

unfoldable pub receipts_conflicts : Issuer → List Fields → List CertifyReason
unfolding receipt_conflicts
receipts_conflicts signer [] = []
receipts_conflicts signer (d ∷ ds) = receipt_conflicts signer d ++ receipts_conflicts signer ds

unfoldable pub approver_conflicts : Issuer → Option Fields → List CertifyReason
approver_conflicts signer none = []
approver_conflicts signer (some approval) =
    let approver_id = get_in "id" (get "approver" approval) in
    if is_str approver_id signer.identity then same_as_approver approver_id ∷ [] else []

-- `_role_conflicts`
unfoldable pub role_conflicts :
    Issuer → Fields → List Fields → Fields → Option Fields → List CertifyReason
unfolding receipts_conflicts approver_conflicts
role_conflicts signer permit receipts reconciliation approval =
    (if is_signer signer permit then same_as_permit_issuer ∷ [] else [])
    ++ ((if is_signer signer reconciliation then same_as_reconciler ∷ [] else [])
        ++ (receipts_conflicts signer receipts ++ approver_conflicts signer approval))

-- The three tests of `_find_discharge` on a candidate.
module _ (host : Host) (ports : Ports) where
  unfoldable pub discharges : String → Value → Fields → Bool
  discharges obligation_id action_digest d =
      is_str (get "obligation_id" d) obligation_id
      && (same (get "action_digest" d) action_digest
          && is_empty (verify host ports (obj d) "ObligationDischargeReceipt"))

  -- `_find_discharge`
  unfoldable pub find_discharge : String → Value → List Value → Option Fields
  unfolding discharges
  find_discharge obligation_id action_digest [] = none
  find_discharge obligation_id action_digest (obj d ∷ vs) =
      let rest = find_discharge obligation_id action_digest vs in
      if discharges obligation_id action_digest d then some d else rest
  find_discharge obligation_id action_digest (_ ∷ vs) =
      find_discharge obligation_id action_digest vs

  -- Step 4: the obligations that nothing discharges.
  unfoldable pub open_obligations : Value → List Value → List String → List CertifyReason
  open_obligations action_digest pool [] = []
  open_obligations action_digest pool (o ∷ os) =
      (if is_none (find_discharge o action_digest pool) then not_discharged o ∷ [] else [])
      ++ open_obligations action_digest pool os

unfoldable pub stale_sources : FreshnessPort → ℕ → List String → List CertifyReason
stale_sources fresh at [] = []
stale_sources fresh at (s ∷ ss) =
    (if fresh s at then [] else stale_source s ∷ []) ++ stale_sources fresh at ss

-- Step 5: every mandatory source is fresh.
unfoldable pub freshness_reasons : Option FreshnessPort → ℕ → List String → List CertifyReason
unfolding stale_sources
freshness_reasons none at sources = if is_empty sources then [] else no_freshness_port ∷ []
freshness_reasons (some fresh) at sources = stale_sources fresh at sources
