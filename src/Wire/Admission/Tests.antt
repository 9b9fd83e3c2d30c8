-- ===== src/Wire/Admission/Tests.antt =====
-- The theorems on admission and permits, for a payment that a human has approved.
use a2a_compliance.Nonces.Memory.{has_pair}
use a2a_compliance.Prelude.{◌∷◌}
use a2a_compliance.Wire.Signing.{pae_bytes, verify_signature}
use a2a_compliance.Wire.Canonical.{subject_digest, subject, canon, digest_hex}
use a2a_compliance.Wire.Trust.{authorizes_role, authorizes_type}
use a2a_compliance.Nonces.Memory.{seen, record_nonce, MemoryNonces, memory_store}
use a2a_compliance.Wire.Admission.{
  AdmissionResult, decision_admitted, index_and_verify, preflight_reasons, obligation_reasons,
}
use a2a_compliance.Wire.Admission.Decide.{
  admit, governance_block_findings, block_passes, binding_check, approval_tests, admit_within,
  tuple_of,
}
use a2a_compliance.Wire.Admission.Decide.Laws.{IsAdmission}
use a2a_compliance.Wire.Admission.Permit.{permit_fields, issue_permit, permit_issued}
use a2a_compliance.Wire.Admission.Permit.Laws.{IsIssued, issue_permit-IsIssued}
use a2a_compliance.Prelude.{String, [], some, ◌∷◌, ◌≡◌, refl}
use a2a_compliance.Governance.Signed.{block_digest, to_dict, subject_fields}
use a2a_compliance.Wire.Fixtures.{
  test_host, test_str, test_plan, test_admission, test_arguments, test_permit_arguments,
  test_governance, test_signed_block, test_receipt, test_trust,
}
use a2a_compliance.Json.{Fields, str, cons, put, nil, obj}
use a2a_compliance.Wire.Verification.{verify_human_approval, verify}
use a2a_compliance.Wire.Admission.Decide.Pinned.{IsPinned, governance_block_findings-IsPinned}
use a2a_compliance.Wire.Checks.{
  parse_datetime, stage_receipt_role_findings, trust_findings, human_approval_wire_findings,
  revocation_findings, approver_findings,
}
use a2a_compliance.Wire.Admission.Decide.Admitted.{admit-IsAdmission}
use a2a_compliance.Governance.{rule}
use a2a_compliance.Lifecycle.Preview.{select}
use a2a_compliance.Text.{remove_prefix}

abbrev admitted_payment : AdmissionResult
admitted_payment = record {
  decision = decision_admitted;
  action_digest = "digest";
  kind = "pay";
  reasons = [];
  approval_reservations = cons (str "watch") nil;
  governance_block_digest = some "digest";
}

payment_admitted :
    admit test_host test_str (test_plan "pay") test_arguments (obj test_receipt ∷ [])
    ≡ some admitted_payment
unfolding admit admit_within tuple_of block_digest to_dict verify_human_approval verify
    subject_digest digest_hex canon subject parse_datetime stage_receipt_role_findings
    trust_findings human_approval_wire_findings revocation_findings authorizes_type authorizes_role
    verify_signature approver_findings pae_bytes rule index_and_verify preflight_reasons
    obligation_reasons select binding_check approval_tests subject_fields remove_prefix
payment_admitted = refl

admit-IsAdmission_example :
    IsAdmission test_host test_str
      (test_plan "pay")
      test_arguments
      (obj test_receipt ∷ [])
      admitted_payment
admit-IsAdmission_example =
    admit-IsAdmission test_host test_str (test_plan "pay") test_arguments (obj test_receipt ∷ [])
      admitted_payment payment_admitted refl

abbrev empty_store : MemoryNonces
empty_store = record { seen_set = []; consumed = [] }

abbrev issued_fields : Fields
unfolding permit_fields
issued_fields = put "signature" (str "sig") (
    put "subject_digest" (str "digest")
      (permit_fields test_host test_admission test_permit_arguments))

abbrev next_store : MemoryNonces
next_store = record { seen_set = (str "run", str "once") ∷ []; consumed = [] }

permit_is_issued :
    issue_permit test_host memory_store test_admission test_permit_arguments empty_store
    ≡ (permit_issued issued_fields, next_store)
unfolding issue_permit subject_digest canon subject seen record_nonce has_pair permit_fields
permit_is_issued = refl

issue_permit-IsIssued_example :
    IsIssued test_host memory_store test_admission test_permit_arguments empty_store issued_fields
      next_store
issue_permit-IsIssued_example =
    issue_permit-IsIssued test_host memory_store test_admission test_permit_arguments empty_store
      issued_fields next_store permit_is_issued

block_passed :
    governance_block_findings test_host test_governance
      (some test_signed_block)
      "bot"
      test_trust
      "policy-author"
    ≡ block_passes (some "digest")
unfolding governance_block_findings block_digest to_dict digest_hex canon authorizes_type
    authorizes_role verify_signature pae_bytes subject_fields subject
block_passed = refl

governance_block_findings-IsPinned_example :
    (digest : String) × (some "digest" ≡ some digest)
    × IsPinned test_host test_governance test_signed_block "bot" test_trust "policy-author" digest
governance_block_findings-IsPinned_example =
    governance_block_findings-IsPinned test_host test_governance test_signed_block "bot" test_trust
      "policy-author" (some "digest") block_passed
