-- ===== src/Wire/Tests.antt =====
-- The theorems on the wire modules, at objects that verify.
use a2a_compliance.Nonces.Memory.{has_pair}
use a2a_compliance.Wire.Signing.{pae_bytes}
use a2a_compliance.Wire.Verification.{approved}
use a2a_compliance.Nonces.Memory.{
  seen, record_nonce, MemoryNonces, memory_store, memory_store-IsNonceStore,
}
use a2a_compliance.Wire.Canonical.{subject_digest, subject, canon}
use a2a_compliance.Wire.Trust.{authorizes_role, authorizes_type}
use a2a_compliance.Wire.Verification.{verify, verify_human_approval, verify_once}
use a2a_compliance.Wire.Verification.Laws.{Accepts, verify-IsAccepted}
use a2a_compliance.Wire.Verification.Human.{IsApproval, verify_human_approval-IsApproval}
use a2a_compliance.Wire.Fixtures.{
  test_host, test_ports, test_trust, test_receipt, test_permit, test_approval,
}
use a2a_compliance.Prelude.{[], none, ◌≢◌, ◌≡◌, refl}
use a2a_compliance.Wire.Checks.{
  parse_datetime, stage_receipt_role_findings, trust_findings, human_approval_wire_findings,
  revocation_findings, approver_findings,
}
use a2a_compliance.Json.{obj}
use a2a_compliance.Wire.Verification.Replay.{verify_all, verify_once-replay}
use a2a_compliance.Wire.Signing.{verify_signature}

receipt_accepted : verify test_host test_ports (obj test_receipt) "StageReceipt" ≡ []
unfolding verify subject_digest canon subject parse_datetime stage_receipt_role_findings
    trust_findings human_approval_wire_findings revocation_findings authorizes_type authorizes_role
    verify_signature approver_findings pae_bytes
receipt_accepted = refl

verify-IsAccepted_example : Accepts test_host test_ports (obj test_receipt) "StageReceipt"
verify-IsAccepted_example =
    verify-IsAccepted test_host test_ports (obj test_receipt) "StageReceipt" receipt_accepted

approval_verified :
    verify_human_approval test_host test_ports test_trust none "human" (obj test_approval)
    ≡ approved "ann"
unfolding verify_human_approval verify subject_digest canon subject parse_datetime
    stage_receipt_role_findings trust_findings human_approval_wire_findings revocation_findings
    authorizes_type authorizes_role verify_signature approver_findings pae_bytes
approval_verified = refl

verify_human_approval-IsApproval_example :
    IsApproval test_host test_ports test_trust none "human" (obj test_approval) "ann"
verify_human_approval-IsApproval_example =
    verify_human_approval-IsApproval test_host test_ports test_trust none "human"
      (obj test_approval) "ann" approval_verified

abbrev empty_store : MemoryNonces
empty_store = record { seen_set = []; consumed = [] }

permit_accepted_once :
    (verify_once test_host memory_store test_ports
      (obj test_permit)
      "ExecutionPermit"
      empty_store).0
    ≡ []
unfolding verify_once subject_digest canon subject parse_datetime stage_receipt_role_findings
    trust_findings human_approval_wire_findings revocation_findings authorizes_type authorizes_role
    verify_signature approver_findings pae_bytes seen record_nonce has_pair
permit_accepted_once = refl

verify_once-replay_example :
    (verify_once test_host memory_store test_ports (obj test_permit) "ExecutionPermit" (
      verify_all test_host memory_store []
        (verify_once test_host memory_store test_ports
          (obj test_permit)
          "ExecutionPermit"
          empty_store).1)).0
    ≢ []
verify_once-replay_example =
    verify_once-replay test_host memory_store memory_store-IsNonceStore test_ports test_ports
      (obj test_permit) (obj test_permit) "ExecutionPermit" "ExecutionPermit" [] empty_store
      permit_accepted_once refl refl
