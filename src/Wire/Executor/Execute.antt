-- ===== src/Wire/Executor/Execute.antt =====
-- wire/executor.py: `consume_and_execute`: verify, match, consume, execute, receipt.
pub mod Laws
pub mod Once
use mathlib.Core.Option
use a2a_compliance.Prelude.{
  List, String, Bool, Option, ◌||◌, [], ◌∷◌, if◌then◌else◌, none, some, not, is_empty, ◌+◌,
}
use a2a_compliance.Json.{Value, Fields, is_str, obj, get, field, str, put, truthy, end, as_dict}
use a2a_compliance.Host.{Host}
use a2a_compliance.Wire.Executor.{
  ExecutionReason, ExecutionArguments, sender_findings, constraints_malformed, execution_ports,
  ExecutionOutcome, permit_not_an_object, arguments_not_canonical, argument_mutation,
  nonce_consumed, permit_rejected, nothing_bound, grade_not_executable, tool_mismatch,
}
use a2a_compliance.Wire.Verification.{verify}
use a2a_compliance.Nonces.{NonceStore}
use a2a_compliance.Wire.Canonical.{digest_hex, subject_digest}
use a2a_compliance.Text.{concat}

-- The steps before the nonce is consumed: the reasons, or the digest of the arguments.
pub data Match : Type 0 where
  match_fails : List ExecutionReason → Match
  match_digest : String → Match

-- `ExecutionResult`; `execution_raises` is an effect whose report has no canonical form.
pub data Execution : Type 0 where
  execution_rejected : List ExecutionReason → Execution
  execution_receipt : Fields → Execution
  execution_raises : Execution

-- The calls of `ExecutorPort.execute`.
abbrev pub Effects : Type 0
Effects = List (String × Value)

abbrev pub executable_grade : Value → Bool
executable_grade v = is_str v "mediated" || is_str v "platform"

module _ (host : Host) where
  -- The comparison with what the permit's constraints bind
  constraint_match : ExecutionArguments → Fields → Match
  constraint_match args constraints =
      let tool = get "tool" constraints in
      let bound = get "arguments_digest" constraints in
      let digested : Match = elim (digest_hex host args.arguments) [
        | none ↦ match_fails (arguments_not_canonical ∷ [])
        | some digest ↦
            if not (is_str bound digest)
            then match_fails (argument_mutation ∷ [])
            else match_digest digest
      ] in
      if not (truthy tool) || not (truthy bound)
      then match_fails (nothing_bound ∷ [])
      else if not (is_str tool args.tool)
      then match_fails (tool_mismatch tool args.tool ∷ [])
      else digested

  constraints_of : ExecutionArguments → Option Fields → Match
  unfolding constraint_match
  constraints_of args none = match_fails (constraints_malformed ∷ [])
  constraints_of args (some constraints) = constraint_match args constraints

  -- The steps 1 to 2 on a permit that is a dict
  unfoldable pub permit_match : ExecutionArguments → Fields → Match
  unfolding verify sender_findings constraints_of
  permit_match args d =
      let errors = verify host (execution_ports args) (obj d) "ExecutionPermit" in
      let sender = sender_findings host d args in
      if not (is_empty errors)
      then match_fails (permit_rejected errors ∷ [])
      else if not (executable_grade (get "enforcement_grade" d))
      then match_fails (grade_not_executable (get "enforcement_grade" d) ∷ [])
      else if not (is_empty sender)
      then match_fails sender
      else constraints_of args (as_dict (get "constraints" d))

  -- The receipt before its digest and its signature
  unfoldable pub receipt_fields :
      (Value → String) → ExecutionArguments → Fields → String → ExecutionOutcome → String → Fields
  receipt_fields str_of args d digest outcome effect_digest =
      field "schema_version" (str args.schema_version) (
        field "type" (str "ToolReceipt") (
          field "issuer" (str args.signer.identity) (
            field "issued_at" (str (host.isoformat args.started)) (
              field "expires_at" (str (host.isoformat (args.ended + args.receipt_ttl))) (
                field "run_id" (get "run_id" d) (
                  field "nonce" (str (concat (str_of (get "nonce" d) ∷ ":receipt" ∷ []))) (
                    field "key_id" (str args.signer.key_id) (
                      field "tool" (str args.tool) (
                        field "arguments_digest" (str digest) (
                          field "effect_digest" (str effect_digest) (
                            field "started_at" (str (host.isoformat args.started)) (
                              field "ended_at" (str (host.isoformat args.ended)) (
                                field "executor"
                                  (obj (
                                    field "id" (str outcome.executor_id)
                                      (field "role" (str outcome.executor_role) end)))
                                  (field "dispatch_id" (str args.dispatch_id) (
                                    field "action_digest" (get "action_digest" d) end)))))))))))))))

  -- The step 5: the signed receipt
  unfoldable pub receipt_of :
      (Value → String) → ExecutionArguments → Fields → String → ExecutionOutcome → Option Fields
  unfolding receipt_fields
  receipt_of str_of args d digest outcome = elim (digest_hex host outcome.effect) [
    | none ↦ none
    | some effect_digest ↦
        let receipt = receipt_fields str_of args d digest outcome effect_digest in
        Option.map
          (λ subject.
            let digested = put "subject_digest" (str subject) receipt in
            put "signature" (str (args.signer.sign digested)) digested)
          (subject_digest host receipt)
  ]

  module _ {S : Type 0} (store : NonceStore S) (str_of : Value → String) where
    -- The steps 3 to 5: the effect happens only if `consume` answers true.
    unfoldable pub consume_step : ExecutionArguments → Fields → S → Match → Execution × S × Effects
    unfolding receipt_of
    consume_step args d s (match_fails reasons) = (execution_rejected reasons, s, [])
    consume_step args d s (match_digest digest) =
        let (fresh, s') = store.consume s (get "run_id" d) (get "nonce" d) in
        let outcome = args.execute args.tool args.arguments in
        let result : Execution = elim (receipt_of str_of args d digest outcome) [
          | none ↦ execution_raises
          | some receipt ↦ execution_receipt receipt
        ] in
        if not fresh
        then (execution_rejected (nonce_consumed ∷ []), s', [])
        else (result, s', (args.tool, args.arguments) ∷ [])

    unfoldable pub consume_and_execute : ExecutionArguments → Value → S → Execution × S × Effects
    unfolding consume_step permit_match
    consume_and_execute args (obj d) s = consume_step args d s (permit_match args d)
    consume_and_execute args _ s = (execution_rejected (permit_not_an_object ∷ []), s, [])
