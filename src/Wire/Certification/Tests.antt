-- ===== src/Wire/Certification/Tests.antt =====
-- An instance of the theorem on certificates.
use a2a_compliance.Json.{put, Fields, field, str, obj, end, bool}
use a2a_compliance.Wire.Fixtures.{test_host, test_trust, signed_object, test_permit, test_issuer}
use a2a_compliance.Wire.Certification.{
  CertifyArguments, open_obligations, find_discharge, discharges, freshness_reasons, stale_sources,
  role_conflicts, receipts_conflicts, receipt_conflicts, approver_conflicts,
}
use a2a_compliance.Wire.Certification.Certify.{
  Certification, certified, certify, certify_dicts, permit_reasons, receipts_reasons,
  receipt_reasons, reconciliation_reasons, evidence_reasons, dicts, certificate_fields,
  signed_certificate,
}
use a2a_compliance.Wire.Certification.Laws.{IsCertified}
use a2a_compliance.Wire.Certification.Certified.{certify-IsCertified}
use a2a_compliance.Json.Equality.{same}
use a2a_compliance.Prelude.{none, ◌∷◌, ◌≡◌, true, [], some, refl}
use a2a_compliance.Wire.Obligations.{sign_object}
use a2a_compliance.Wire.Chain.{digest_value}
use a2a_compliance.Wire.Verification.{verify}
use a2a_compliance.Wire.Canonical.{subject_digest, digest_hex, canon, subject}
use a2a_compliance.Wire.Checks.{
  parse_datetime, replace_z, trust_findings, revocation_findings, human_approval_wire_findings,
  stage_receipt_role_findings,
}
use a2a_compliance.Wire.Trust.{authorizes_type, authorizes_role}
use a2a_compliance.Wire.Signing.{verify_signature, pae_bytes}

abbrev bound : Fields
bound = field "action_digest" (str "digest") end

abbrev action_permit : Fields
action_permit = put "action_digest" (str "digest") test_permit

abbrev tool_receipt : Fields
tool_receipt = signed_object "ToolReceipt" bound

abbrev reconciliation : Fields
reconciliation =
    signed_object "Reconciliation"
      (field "state" (str "RECONCILED") (field "certified" (bool true) bound))

abbrev discharge : Fields
discharge = signed_object "ObligationDischargeReceipt" (field "obligation_id" (str "log") bound)

abbrev arguments : CertifyArguments
arguments = record {
  trust_store = test_trust;
  revocation_store = none;
  discharge_receipts = obj discharge ∷ [];
  blocking_obligations = "log" ∷ [];
  mandatory_sources = "norms" ∷ [];
  freshness = some (λ s at. true);
  approval = none;
  signer = test_issuer;
  certifier_role = "assurance-signer";
  run_id = "run";
  nonce = "n";
  prev_digest = none;
  now = none;
  clock = 50;
  schema_version = "1.0.0";
  certificate_ttl = 1000;
}

abbrev certificate_of : Certification → Fields
certificate_of (certified c) = c
certificate_of _ = end

abbrev certificate : Fields
certificate =
    certificate_of
      (certify test_host arguments (obj action_permit) (obj tool_receipt ∷ []) (obj reconciliation))

run_certified :
    certify test_host arguments (obj action_permit) (obj tool_receipt ∷ []) (obj reconciliation)
    ≡ certified certificate
unfolding certify certify_dicts permit_reasons receipts_reasons receipt_reasons
    reconciliation_reasons evidence_reasons open_obligations find_discharge discharges
    freshness_reasons stale_sources role_conflicts receipts_conflicts receipt_conflicts
    approver_conflicts dicts certificate_fields signed_certificate sign_object same digest_value
    verify subject_digest digest_hex canon subject parse_datetime replace_z trust_findings
    revocation_findings authorizes_type authorizes_role verify_signature pae_bytes
    human_approval_wire_findings stage_receipt_role_findings
run_certified = refl

certify-IsCertified_example :
    (p : Fields) × (r : Fields) × (obj action_permit ≡ obj p)
    × (obj reconciliation ≡ obj r)
    × IsCertified test_host arguments p (obj tool_receipt ∷ []) r certificate
certify-IsCertified_example =
    certify-IsCertified test_host arguments (obj action_permit) (obj tool_receipt ∷ [])
      (obj reconciliation) certificate run_certified
