-- ===== src/Wire/Executor/Execute/Laws.antt =====
-- What an effect behind `consume_and_execute` guarantees, and how often it happens.
use mathlib.Core.Option
use a2a_compliance.Host.{Host}
use a2a_compliance.Prelude.{
  Bool, Option, List, String, none, ◌≡◌, if◌then◌else◌, [], true, not, some, false, refl,
  is_empty-eq-true, ◌&&◌, Bool-cases, arith, inl, ap, ◌||◌, sym, inr, ◌∷◌, is_empty, ◌==◌, ◌≢◌,
}
use a2a_compliance.Wire.Executor.{
  ExecutionArguments, ExecutionReason, proof_findings, is_identity_of, execution_ports,
  jkt_malformed, sender_findings, sender_constraint_findings, aud_mismatch,
}
use a2a_compliance.Json.{
  Fields, Value, get, as_dict, obj, get_in, is_str, str, is_null, truthy, null, as_str,
}
use a2a_compliance.Wire.Executor.Execute.{
  constraints_of, Match, constraint_match, match_fails, match_digest, executable_grade,
  permit_match,
}
use a2a_compliance.Wire.Verification.Laws.{Accepts, verify-IsAccepted}
use a2a_compliance.Wire.Signing.{verify_proof_of_possession}
use a2a_compliance.Wire.Canonical.{digest_hex}
use a2a_compliance.Wire.Checks.Laws.{is_str-eq}
use mathlib.Core.Option.{some-injective}
use a2a_compliance.Wire.Verification.{verify}

-- What the sender constraint of a permit demands of the call.
pub record IsSender (host : Host) (args : ExecutionArguments) (d : Fields) : Type 0 where
  pub identity : is_identity_of args.executor_identity (get "aud" d) ≡ true
  pub proof : Fields
  pub given : args.proof_of_possession ≡ some proof
  pub jkt : String
  pub confirmed : get_in "jkt" (get "cnf" d) ≡ str jkt
  pub proved :
      verify_proof_of_possession host proof (get "subject_digest" d) (get "nonce" d) jkt ≡ []

-- Everything that a call has checked before it consumes the nonce.
pub record IsAuthorised (host : Host) (args : ExecutionArguments) (d : Fields) : Type 0 where
  pub accepted : Accepts host (execution_ports args) (obj d) "ExecutionPermit"
  pub grade : executable_grade (get "enforcement_grade" d) ≡ true
  pub sender : (is_null (get "aud" d) && is_null (get "cnf" d)) ≡ false → IsSender host args d
  pub tool_bound : get_in "tool" (get "constraints" d) ≡ str args.tool
  pub arguments_bound :
      Option.map str (digest_hex host args.arguments)
      ≡ some (get_in "arguments_digest" (get "constraints" d))

permit_gates :
    (a b c : Bool) (x y z : List ExecutionReason) (rest : Match) (digest : String)
    → (if not a
        then match_fails x
        else if not b
        then match_fails y
        else if not c
        then match_fails z
        else rest)
      ≡ match_digest digest
    → (a ≡ true) × (b ≡ true) × (c ≡ true) × (rest ≡ match_digest digest)
permit_gates true true true x y z rest digest h = (refl, refl, refl, h)
permit_gates true true false x y z rest digest h = absurd (cc)
permit_gates true false c x y z rest digest h = absurd (cc)
permit_gates false b c x y z rest digest h = absurd (cc)

bound_gates :
    (a b : Bool) (x y : List ExecutionReason) (rest : Match) (digest : String)
    → (if a then match_fails x else if not b then match_fails y else rest) ≡ match_digest digest
    → (b ≡ true) × (rest ≡ match_digest digest)
bound_gates true b x y rest digest h = absurd (cc)
bound_gates false true x y rest digest h = (refl, h)
bound_gates false false x y rest digest h = absurd (cc)

digest_gate :
    (o : Option String) (bound : Value) (x y : List ExecutionReason) (digest : String)
    → (elim o [
      | none ↦ match_fails x
      | some d ↦ if not (is_str bound d) then match_fails y else match_digest d
    ])
      ≡ match_digest digest
    → Option.map str o ≡ some bound
digest_gate none bound x y digest h = absurd (cc)
digest_gate (some d) bound x y digest h = elim (Bool-cases (is_str bound d)) [
  | inl same ↦ ap some (sym (is_str-eq bound d same))
  | inr other ↦ absurd (let h' : match_fails y ≡ match_digest digest = rw other at h in cc (h'))
]

module _ (host : Host) (args : ExecutionArguments) where
  constraint_bound :
      (v : Value) (digest : String)
      → constraints_of host args (as_dict v) ≡ match_digest digest
      → (get_in "tool" v ≡ str args.tool)
        × (Option.map str (digest_hex host args.arguments) ≡ some (get_in "arguments_digest" v))
  unfolding constraints_of constraint_match
  constraint_bound (obj c) digest h =
      let (tool, rest) =
        bound_gates (not (truthy (get "tool" c)) || not (truthy (get "arguments_digest" c)))
          (is_str (get "tool" c) args.tool) _ _ _ digest h in
      (
        is_str-eq (get "tool" c) args.tool tool,
        digest_gate (digest_hex host args.arguments) (get "arguments_digest" c) _ _ digest rest,
      )
  constraint_bound null digest h = absurd (cc)
  constraint_bound _ digest h = absurd (cc)

  proof_found :
      (d : Fields) (proof : Option Fields) (jkt : String)
      → proof_findings host d proof jkt ≡ []
      → (f : Fields) × (proof ≡ some f)
        × (verify_proof_of_possession host f (get "subject_digest" d) (get "nonce" d) jkt ≡ [])
  unfolding proof_findings
  proof_found d none jkt h = absurd (cc)
  proof_found d (some f) jkt h = (f, refl, is_empty-eq-true _ (ground arith))

  jkt_named :
      (d : Fields) (o : Option String) (x : List ExecutionReason)
      → (elim o [
        | none ↦ jkt_malformed ∷ []
        | some jkt ↦
            if jkt == ""
            then jkt_malformed ∷ []
            else if not (is_identity_of args.executor_identity (get "aud" d))
            then x
            else proof_findings host d args.proof_of_possession jkt
      ])
        ≡ []
      → x ≢ []
      → (jkt : String) × (o ≡ some jkt)
        × (is_identity_of args.executor_identity (get "aud" d) ≡ true)
        × (proof_findings host d args.proof_of_possession jkt ≡ [])
  jkt_named d none x h n = absurd (cc)
  jkt_named d (some jkt) x h n = (jkt, refl, ground arith, ground arith)

  as_str-eq : (v : Value) (s : String) → as_str v ≡ some s → v ≡ str s
  as_str-eq (str t) s h = ap str (some-injective t s h)
  as_str-eq null s h = absurd (cc)
  as_str-eq _ s h = absurd (cc)

  -- A sender constraint without findings is satisfied by the caller.
  sender_findings-IsSender :
      (d : Fields)
      → sender_findings host d args ≡ []
      → (is_null (get "aud" d) && is_null (get "cnf" d)) ≡ false
      → IsSender host args d
  unfolding sender_findings sender_constraint_findings
  sender_findings-IsSender d h constrained =
      let (jkt, named, identity, proof) =
        jkt_named d (as_str (get_in "jkt" (get "cnf" d)))
          (aud_mismatch (get "aud" d) args.executor_identity ∷ []) (ground arith) (λ e. cc) in
      let (f, given, proved) = proof_found d args.proof_of_possession jkt proof in
      record {
        identity = identity;
        proof = f;
        given = given;
        jkt = jkt;
        confirmed = as_str-eq (get_in "jkt" (get "cnf" d)) jkt named;
        proved = proved;
      }

  -- The steps before the nonce succeed only for an authorised call.
  pub permit_match-IsAuthorised :
      (d : Fields) (digest : String)
      → permit_match host args d ≡ match_digest digest
      → IsAuthorised host args d
  unfolding permit_match
  permit_match-IsAuthorised d digest h =
      let (ok, grade, sender, rest) =
        permit_gates (is_empty (verify host (execution_ports args) (obj d) "ExecutionPermit"))
          (executable_grade (get "enforcement_grade" d)) (is_empty (sender_findings host d args)) _
          _ _ _ digest h in
      let (tool_bound, arguments_bound) = constraint_bound (get "constraints" d) digest rest in
      record {
        accepted =
            verify-IsAccepted host (execution_ports args) (obj d) "ExecutionPermit"
              (is_empty-eq-true _ ok);
        grade = grade;
        sender = λ c. sender_findings-IsSender d (is_empty-eq-true _ sender) c;
        tool_bound = tool_bound;
        arguments_bound = arguments_bound;
      }
