-- ===== src/Wire/Chain.antt =====
-- wire/chain.py: an ordered list of objects, each of which names the digest of the one before it.
-- wire/audit_chain.py: the assurance chain of one run.
pub mod Laws
pub mod Evidence
pub mod Audit
pub mod Tests
use a2a_compliance.Json.Equality.{same}
use a2a_compliance.Wire.Verification.{verify, verify_once}
use a2a_compliance.Wire.Checks.{Ports, VerificationError}
use a2a_compliance.Wire.Canonical.{subject_digest}
use a2a_compliance.Prelude.{
  ℕ, String, List, Option, if◌then◌else◌, ◌∷◌, none, [], some, ◌++◌, suc, map, is_empty, zero,
}
use a2a_compliance.Host.{Host}
use a2a_compliance.Json.{
  Value, Fields, opt_str, obj, Items, as_dict, nil, null, get_in, is_null, get, cons, arr,
}
use a2a_compliance.Nonces.{NonceStore}

-- The messages, with the index of the object.
pub data ChainError : Type 0 where
  empty_chain : ChainError
  link_not_object : ℕ → ChainError
  link_rejected : ℕ → List VerificationError → ChainError
  anchor_mismatch : Value → Value → ChainError
  link_missing : ℕ → ChainError
  link_broken : ℕ → ChainError

-- The comparison of `prev_digest` with the digest of the object before it, or with the anchor.
unfoldable pub link_errors : ℕ → Value → Value → List ChainError
link_errors zero claimed_prev prior =
    if same claimed_prev prior then [] else anchor_mismatch prior claimed_prev ∷ []
link_errors (suc i) claimed_prev prior =
    if is_null claimed_prev
    then link_missing (suc i) ∷ []
    else if same claimed_prev prior
    then []
    else link_broken (suc i) ∷ []

unfoldable pub rejection_of : ℕ → List VerificationError → List ChainError
rejection_of i [] = []
rejection_of i errors = link_rejected i errors ∷ []

module _ (host : Host) where
  -- `prior_digest`: `None` where the canonical form raises
  unfoldable pub digest_value : Fields → Value
  digest_value d = opt_str (subject_digest host d)

  module _ {S : Type 0} (nonce_store : Option (NonceStore S)) (ports : Ports)
      (obj_type : String) where
    verify_by : Option (NonceStore S) → Value → S → List VerificationError × S
    verify_by none v s = (verify host ports v obj_type, s)
    verify_by (some store) v s = verify_once host store ports v obj_type s

    dict_errors : ℕ → Fields → Value → List VerificationError → List ChainError
    unfolding rejection_of
    dict_errors i d prior errors =
        rejection_of i errors ++ link_errors i (get "prev_digest" d) prior

    -- The loop over the objects; an object that is no dict breaks the chain behind it.
    unfoldable pub link_all : ℕ → Value → List Value → S → List ChainError × S
    unfolding verify_by dict_errors
    link_all i prior [] s = ([], s)
    link_all i prior (obj d ∷ vs) s =
        let (errors, s') = verify_by nonce_store (obj d) s in
        let (rest, s'') = link_all (suc i) (digest_value d) vs s' in
        (dict_errors i d prior errors ++ rest, s'')
    link_all i prior (v ∷ vs) s =
        let (rest, s') = link_all (suc i) null vs s in (link_not_object i ∷ rest, s')

    -- `verify_chain`: no errors if the chain is accepted
    unfoldable pub verify_chain : Option String → List Value → S → List ChainError × S
    unfolding link_all
    verify_chain genesis [] s = (empty_chain ∷ [], s)
    verify_chain genesis (v ∷ vs) s = link_all 0 (opt_str genesis) (v ∷ vs) s

-- The messages of `audit_chain_verify`.
pub data AuditError : Type 0 where
  stage_chain : ChainError → AuditError
  tool_chain : ChainError → AuditError
  no_tool_receipts : AuditError
  not_object : String → AuditError
  not_accepted : String → VerificationError → AuditError
  other_permit other_reconciliation other_receipts : AuditError

module _ (host : Host) where
  unfoldable pub digests_of : List Value → Items
  digests_of [] = nil
  digests_of (v ∷ vs) =
      cons (elim (as_dict v) [ none ↦ null | some d ↦ digest_value host d ]) (digests_of vs)

  unfoldable pub value_digest : Value → Value
  value_digest v = elim (as_dict v) [ none ↦ null | some d ↦ digest_value host d ]

  -- The references of the certificate, compared where everything else was accepted.
  unfoldable pub reference_errors : Value → List Value → Value → Value → List AuditError
  unfolding digests_of value_digest
  reference_errors permit receipts reconciliation certificate =
      (if same (get_in "permit_digest" certificate) (value_digest permit)
        then []
        else other_permit ∷ [])
      ++ ((if same (get_in "reconciliation_digest" certificate) (value_digest reconciliation)
            then []
            else other_reconciliation ∷ [])
          ++ (if same (get_in "tool_receipt_digests" certificate) (arr (digests_of receipts))
              then []
              else other_receipts ∷ []))

module _ (host : Host) (ports : Ports) where
  -- `verify_chain` with no nonce store
  abbrev pub plain_chain : String → List Value → List ChainError
  plain_chain obj_type vs = (verify_chain host {S = Unit {0}} none ports obj_type none vs tt).0

  unfoldable pub object_errors : String → String → Value → List AuditError
  object_errors label obj_type (obj d) =
      map (not_accepted label) (verify host ports (obj d) obj_type)
  object_errors label obj_type v = not_object label ∷ []

  unfoldable pub part_errors : Value → List Value → Value → Value → List Value → List AuditError
  unfolding object_errors
  part_errors permit receipts reconciliation certificate stages =
      (if is_empty stages then [] else map stage_chain (plain_chain "StageReceipt" stages))
      ++ ((if is_empty receipts
            then no_tool_receipts ∷ []
            else map tool_chain (plain_chain "ToolReceipt" receipts))
          ++ (object_errors "permit" "ExecutionPermit" permit
              ++ (object_errors "reconciliation" "Reconciliation" reconciliation
                  ++ object_errors "certificate" "OversightCertificate" certificate)))

  unfoldable pub audit_chain_verify :
      Value → List Value → Value → Value → List Value → List AuditError
  unfolding part_errors reference_errors
  audit_chain_verify permit receipts reconciliation certificate stages =
      let errors = part_errors permit receipts reconciliation certificate stages in
      if is_empty errors
      then reference_errors host permit receipts reconciliation certificate
      else errors
