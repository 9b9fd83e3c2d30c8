-- ===== src/Wire/Verification.antt =====
-- wire/verification.py: the fail-closed verifier of a wire object, and of a human's approval.
pub mod Laws
pub mod Replay
pub mod Human
use a2a_compliance.Host.{Host}
use a2a_compliance.Prelude.{
  List, Option, String, Bool, if◌then◌else◌, false, some, is_empty, ◌==◌, none, ◌∷◌, [], not,
  contains, ◌++◌, map, leb, is_none, ℕ,
}
use a2a_compliance.Wire.Checks.{
  approver_findings, Ports, VerificationError, reference, unknown_key_id, not_an_object,
  digest_mismatch, type_mismatch, self_approval, parse_datetime, all_wire_types, expiry_unparseable,
  unknown_type, schema_error, expired, stage_receipt_role_findings, nonce_replay,
  cannot_canonicalise, trust_findings, human_approval_wire_findings, revocation_findings,
}
use a2a_compliance.Nonces.{NonceStore}
use a2a_compliance.Json.{Fields, Value, as_dict, get_in, is_str, get, obj}
use a2a_compliance.Wire.Trust.{TrustStore, TrustBinding, RevocationStore}
use a2a_compliance.Wire.Canonical.{subject_digest}

module _ (host : Host) where
  pub digest_findings : Fields → List VerificationError
  digest_findings d = elim (subject_digest host d) [
    | none ↦ []
    | some expected ↦ if is_str (get "subject_digest" d) expected then [] else digest_mismatch ∷ []
  ]

  pub expiry_findings : ℕ → Fields → List VerificationError
  expiry_findings at d = elim (parse_datetime host (get "expires_at" d)) [
    | none ↦ expiry_unparseable ∷ []
    | some expires_at ↦ if leb expires_at at then expired ∷ [] else []
  ]

  -- The checks that a trust store switches on.
  pub store_findings : Option TrustStore → String → String → Fields → List VerificationError
  store_findings none human_role obj_type d = []
  store_findings (some trust_store) human_role obj_type d =
      trust_findings host d obj_type trust_store
      ++ (if obj_type == "HumanApprovalReceipt"
          then human_approval_wire_findings d trust_store human_role
          else [])

  -- The checks that a revocation store switches on.
  pub revocation_part : Option RevocationStore → ℕ → String → Fields → List VerificationError
  revocation_part none at obj_type d = []
  revocation_part (some store) at obj_type d = revocation_findings d obj_type store at

  -- The checks on an object that the schema accepted. `replayed` is the nonce store's answer.
  pub content_findings : Ports → String → Bool → String → Fields → List VerificationError
  content_findings ports human_role replayed obj_type d =
      digest_findings d
      ++ (expiry_findings (reference ports) d
          ++ ((if obj_type == "StageReceipt" then stage_receipt_role_findings d else [])
              ++ ((if replayed then nonce_replay ∷ [] else [])
                  ++ (store_findings ports.trust_store human_role obj_type d
                      ++ revocation_part ports.revocation_store (reference ports) obj_type d))))

  -- The findings of `verify` on a dict of a known type.
  pub shape_findings : String → Fields → List VerificationError
  shape_findings obj_type d =
      (if is_str (get "type" d) obj_type then [] else type_mismatch obj_type (get "type" d) ∷ [])
      ++ map schema_error (host.schema_errors obj_type (obj d))

  pub dict_findings : Ports → String → Bool → String → Fields → List VerificationError
  dict_findings ports human_role replayed obj_type d =
      if not (is_empty (shape_findings obj_type d))
      then shape_findings obj_type d
      else if is_none (subject_digest host d)
      then cannot_canonicalise ∷ []
      else content_findings ports human_role replayed obj_type d

  pub findings : Ports → String → Bool → Value → String → List VerificationError
  unfolding dict_findings shape_findings content_findings digest_findings expiry_findings
      store_findings revocation_part
  findings ports human_role replayed v obj_type =
      let checked : List VerificationError = elim (as_dict v) [
        | none ↦ not_an_object ∷ []
        | some d ↦ dict_findings ports human_role replayed obj_type d
      ] in
      if not (contains all_wire_types obj_type) then unknown_type obj_type ∷ [] else checked

  -- `verify` with no nonce store: the errors, none of them if the object is accepted
  unfoldable pub verify : Ports → Value → String → List VerificationError
  unfolding findings
  verify ports v obj_type = findings ports "human" false v obj_type

  -- `verify` with a nonce store: the pair is recorded only if everything passed.
  unfoldable pub verify_once :
      {S : Type 0} → NonceStore S → Ports → Value → String → S → List VerificationError × S
  unfolding findings
  verify_once store ports v obj_type s =
      let run_id = get_in "run_id" v in
      let nonce = get_in "nonce" v in
      let errors = findings ports "human" (store.seen s run_id nonce) v obj_type in
      (errors, if is_empty errors then store.record_nonce s run_id nonce else s)

-- `HumanApprovalVerification`: the errors, or the identity that the key is bound to
pub data HumanApproval : Type 0 where
  rejected : List VerificationError → HumanApproval
  approved : String → HumanApproval

abbrev is_sender : Option String → String → Bool
is_sender none identity = false
is_sender (some sender) identity = identity == sender

-- `verify_human_approval` behind its call of `verify`
identity_check : Fields → String → Option String → Value → Option TrustBinding → HumanApproval
unfolding approver_findings
identity_check d human_role sender_identity key_id none = rejected (unknown_key_id key_id ∷ [])
identity_check d human_role sender_identity key_id (some binding) =
    let errors = approver_findings d human_role key_id binding in
    let accepted : HumanApproval = elim binding.identity [
      | none ↦ rejected errors
      | some identity ↦
          if is_sender sender_identity identity
          then rejected (self_approval ∷ [])
          else approved identity
    ] in
    if not (is_empty errors) then rejected errors else accepted

module _ (host : Host) where
  unfoldable pub verify_human_approval :
      Ports → TrustStore → Option String → String → Value → HumanApproval
  unfolding identity_check
  verify_human_approval ports trust_store sender_identity human_role approval =
      let errors =
        verify host (record ports { trust_store = some trust_store }) approval
          "HumanApprovalReceipt" in
      let checked : HumanApproval = elim (as_dict approval) [
        | none ↦ rejected errors
        | some d ↦
            identity_check d human_role sender_identity (get "key_id" d)
              (trust_store (get "key_id" d))
      ] in
      if not (is_empty errors) then rejected errors else checked
