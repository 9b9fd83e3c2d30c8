-- ===== src/Wire/Executor/Tests.antt =====
-- The theorems on the executor, for a permit that binds one mail.
use a2a_compliance.Nonces.Memory.{has_pair}
use a2a_compliance.Prelude.{◌∷◌}
use a2a_compliance.Wire.Signing.{pae_bytes, verify_signature}
use a2a_compliance.Wire.Canonical.{subject_digest, subject, digest_hex, canon}
use a2a_compliance.Wire.Trust.{authorizes_role, authorizes_type}
use a2a_compliance.Nonces.Memory.{consume, MemoryNonces, memory_store, memory_store-IsNonceStore}
use a2a_compliance.Wire.Executor.Execute.{consume_and_execute}
use a2a_compliance.Wire.Executor.Execute.Once.{
  IsExecuted, consume_and_execute-IsExecuted, execute_all, consume_and_execute-once,
}
use a2a_compliance.Prelude.{[], ◌≢◌, ap, ◌≡◌, is_empty, sym, refl, ◌∙◌}
use a2a_compliance.Wire.Verification.{verify}
use a2a_compliance.Wire.Fixtures.{test_host, test_str, test_execution, test_permit}
use a2a_compliance.Wire.Checks.{
  parse_datetime, stage_receipt_role_findings, trust_findings, human_approval_wire_findings,
  revocation_findings, approver_findings,
}
use a2a_compliance.Json.{obj, end}
use a2a_compliance.Wire.Executor.{sender_findings}

abbrev empty_store : MemoryNonces
empty_store = record { seen_set = []; consumed = [] }

mail_sent :
    (consume_and_execute test_host memory_store test_str test_execution
      (obj test_permit)
      empty_store).2
    ≡ ("mail", obj end) ∷ []
unfolding consume_and_execute verify subject_digest digest_hex canon subject parse_datetime
    stage_receipt_role_findings trust_findings human_approval_wire_findings revocation_findings
    authorizes_type authorizes_role verify_signature approver_findings pae_bytes sender_findings
    consume has_pair
mail_sent = refl

mail_happens :
    (consume_and_execute test_host memory_store test_str test_execution
      (obj test_permit)
      empty_store).2
    ≢ []
mail_happens h = let e = ap is_empty (sym mail_sent ∙ h) in cc (e)

consume_and_execute-IsExecuted_example :
    IsExecuted test_host memory_store test_str memory_store-IsNonceStore test_execution
      (obj test_permit)
      empty_store
consume_and_execute-IsExecuted_example =
    consume_and_execute-IsExecuted test_host memory_store test_str memory_store-IsNonceStore
      test_execution (obj test_permit) empty_store mail_happens

consume_and_execute-once_example :
    (consume_and_execute test_host memory_store test_str test_execution (obj test_permit) (
      execute_all test_host memory_store test_str []
        (consume_and_execute test_host memory_store test_str test_execution
          (obj test_permit)
          empty_store).1)).2
    ≡ []
consume_and_execute-once_example =
    consume_and_execute-once test_host memory_store test_str memory_store-IsNonceStore
      test_execution test_execution test_permit test_permit [] empty_store mail_happens refl refl
