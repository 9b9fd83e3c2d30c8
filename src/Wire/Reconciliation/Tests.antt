-- ===== src/Wire/Reconciliation/Tests.antt =====
-- An instance of the theorem on reconciliations.
use a2a_compliance.Json.{put, Fields, field, str, end, obj, get, bool}
use a2a_compliance.Json.Equality.{same}
use a2a_compliance.Wire.Fixtures.{test_host, test_trust, signed_object, test_permit, test_issuer}
use a2a_compliance.Wire.Reconciliation.{
  ReconcileArguments, ObservedEffects, invalid_receipts, verified_receipts, receipt_invalid,
  receipts_residuals, observed_residuals, intended_residuals, missing_tools, is_delivered,
}
use a2a_compliance.Wire.Reconciliation.Reconcile.{
  Reconciled, reconciled, reconcile, compare_effects, all_residuals, is_certified, built,
  observed_digest, reconciliation_fields,
}
use a2a_compliance.Wire.Reconciliation.Clean.{IsClean, reconcile-IsClean}
use a2a_compliance.Prelude.{none, some, [], ◌∷◌, ◌≡◌, true, refl}
use a2a_compliance.Wire.Obligations.{sign_object}
use a2a_compliance.Governance.Signed.{sorted_set}
use a2a_compliance.Wire.Verification.{verify}
use a2a_compliance.Wire.Canonical.{subject_digest, digest_hex, canon, subject}
use a2a_compliance.Wire.Checks.{
  parse_datetime, replace_z, trust_findings, revocation_findings, human_approval_wire_findings,
  stage_receipt_role_findings,
}
use a2a_compliance.Wire.Trust.{authorizes_type, authorizes_role}
use a2a_compliance.Wire.Signing.{verify_signature, pae_bytes}

abbrev action_permit : Fields
action_permit = put "action_digest" (str "digest") test_permit

abbrev tool_receipt : Fields
tool_receipt = signed_object "ToolReceipt" (
    field "tool" (str "mail")
      (field "action_digest" (str "digest") (field "effect_digest" (str "digest") end)))

abbrev observed : ObservedEffects
observed = record { effects = field "digest" (str "sent") end; unmatched = [] }

abbrev arguments : ReconcileArguments
arguments = record {
  trust_store = test_trust;
  revocation_store = none;
  signer = test_issuer;
  run_id = "run";
  nonce = "n";
  intended_effects = some (field "mail" (str "sent") end);
  now = none;
  clock = 50;
  schema_version = "1.0.0";
  reconciliation_ttl = 1000;
  invalid_text = λ r. "invalid";
  residual_text = λ r. "residual";
  reason_text = λ clean rs is. "reason";
}

abbrev object_of : Reconciled → Fields
object_of (reconciled r) = r
object_of _ = end

abbrev outcome : Fields
outcome =
    object_of
      (reconcile test_host arguments (obj action_permit) (obj tool_receipt ∷ []) (some observed))

run_reconciled :
    (reconcile test_host arguments (obj action_permit) (obj tool_receipt ∷ []) (some observed)
      ≡ reconciled outcome)
    × (get "certified" outcome ≡ bool true)
unfolding reconcile compare_effects all_residuals is_certified built observed_digest
    reconciliation_fields sign_object invalid_receipts verified_receipts receipt_invalid
    receipts_residuals observed_residuals intended_residuals missing_tools is_delivered sorted_set
    same verify subject_digest digest_hex canon subject parse_datetime replace_z trust_findings
    revocation_findings authorizes_type authorizes_role verify_signature pae_bytes
    human_approval_wire_findings stage_receipt_role_findings
run_reconciled = (refl, refl)

reconcile-IsClean_example :
    (p : Fields) × (obj action_permit ≡ obj p)
    × IsClean test_host arguments p (obj tool_receipt ∷ []) (some observed)
reconcile-IsClean_example =
    reconcile-IsClean test_host arguments (obj action_permit) (obj tool_receipt ∷ [])
      (some observed) outcome run_reconciled.0 run_reconciled.1
