-- ===== src/Wire/Executor.antt =====
-- wire/executor.py: the only function between a permit and a real effect.
pub mod Tests
pub mod Execute
use mathlib.Core.Option
use a2a_compliance.Json.{
  Value, Fields, field, put, get, is_null, end, get_in, is_str, as_dict, str, as_str, has,
}
use a2a_compliance.Prelude.{
  List, String, Option, Bool, if◌then◌else◌, false, some, ◌&&◌, ℕ, none, [], ◌∷◌, is_empty, not,
  is_none, ◌==◌, ◌||◌,
}
use a2a_compliance.Host.{Host, aware}
use a2a_compliance.Wire.Checks.{VerificationError, Ports, is_nonempty_str, reference}
use a2a_compliance.Wire.Signing.{verify_proof_of_possession, ProofError}
use a2a_compliance.Wire.Trust.{TrustStore}
use a2a_compliance.Wire.Admission.Permit.{Issuer}
use a2a_compliance.Wire.Canonical.{digest_hex}

-- `ExecutionOutcome`
pub record ExecutionOutcome : Type 0 where
  pub effect : Value
  pub executor_id : String
  pub executor_role : String

-- The reasons of a call that is rejected.
pub data ExecutionReason : Type 0 where
  permit_not_an_object : ExecutionReason
  permit_rejected : List VerificationError → ExecutionReason
  grade_not_executable : Value → ExecutionReason
  aud_malformed cnf_malformed jkt_malformed proof_required : ExecutionReason
  aud_mismatch : Value → Option String → ExecutionReason
  proof_rejected : List ProofError → ExecutionReason
  constraints_malformed nothing_bound arguments_not_canonical : ExecutionReason
  tool_mismatch : Value → String → ExecutionReason
  argument_mutation nonce_consumed : ExecutionReason

-- The keyword arguments of `consume_and_execute`, with the instants that `datetime.now` answers
-- and the port's method `execute`.
pub record ExecutionArguments : Type 0 where
  pub tool : String
  pub arguments : Value
  pub ports : Ports
  pub trust_store : TrustStore
  pub execute : String → Value → ExecutionOutcome
  pub signer : Issuer
  pub dispatch_id : String
  pub executor_identity : Option String
  pub proof_of_possession : Option Fields
  pub schema_version : String
  pub receipt_ttl : ℕ
  pub started : ℕ
  pub ended : ℕ

-- `bind_constraints`; `none` is `ValueError`.
unfoldable pub merge : Fields → Fields → Fields
merge d end = d
merge d (field k v e) = merge (put k v d) e

unfoldable pub bind_constraints : Host → String → Value → Fields → Option Fields
unfolding merge
bind_constraints host tool arguments extra =
    let bound =
      Option.map
        (λ digest.
          merge (field "tool" (str tool) (field "arguments_digest" (str digest) end)) extra)
        (digest_hex host arguments) in
    if has "tool" extra || has "arguments_digest" extra then none else bound

-- `executor_identity == permit_aud`
abbrev pub is_identity_of : Option String → Value → Bool
is_identity_of none v = false
is_identity_of (some s) v = is_str v s

module _ (host : Host) where
  -- The proof of possession, against the key that `cnf.jkt` names
  proof_findings : Fields → Option Fields → String → List ExecutionReason
  unfolding verify_proof_of_possession
  proof_findings permit none jkt = proof_required ∷ []
  proof_findings permit (some proof) jkt =
      let errors =
        verify_proof_of_possession host proof (get "subject_digest" permit) (get "nonce" permit)
          jkt in
      if is_empty errors then [] else proof_rejected errors ∷ []

  -- `_sender_constraint_findings`
  unfoldable pub sender_constraint_findings :
      Fields → Option String → Option Fields → List ExecutionReason
  unfolding proof_findings
  sender_constraint_findings permit identity proof =
      let aud = get "aud" permit in
      let named : List ExecutionReason = elim (as_str (get_in "jkt" (get "cnf" permit))) [
        | none ↦ jkt_malformed ∷ []
        | some jkt ↦
            if jkt == ""
            then jkt_malformed ∷ []
            else if not (is_identity_of identity aud)
            then aud_mismatch aud identity ∷ []
            else proof_findings permit proof jkt
      ] in
      if not (is_nonempty_str aud)
      then aud_malformed ∷ []
      else if is_none (as_dict (get "cnf" permit))
      then cnf_malformed ∷ []
      else named

  -- The sender constraint, which a permit with neither field does not have
  unfoldable pub sender_findings : Fields → ExecutionArguments → List ExecutionReason
  unfolding sender_constraint_findings
  sender_findings permit args =
      if is_null (get "aud" permit) && is_null (get "cnf" permit)
      then []
      else sender_constraint_findings permit args.executor_identity args.proof_of_possession

-- The ports of the executor's call of `verify`: `now` is the reference time.
abbrev pub execution_ports : ExecutionArguments → Ports
execution_ports args = record args.ports {
  trust_store = some args.trust_store;
  now = some (aware (reference args.ports));
}
