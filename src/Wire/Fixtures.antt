-- ===== src/Wire/Fixtures.antt =====
-- A host, a trust store and signed objects for the tests of the wire modules.
use a2a_compliance.Governance.{steer, GovernanceBlock, within_actions}
use a2a_compliance.Host.{Host, aware}
use a2a_compliance.Wire.Trust.{TrustBinding, TrustStore}
use a2a_compliance.Wire.Checks.{Ports}
use a2a_compliance.Prelude.{String, [], some, true, ◌∷◌, false, none}
use a2a_compliance.Json.{Fields, Value, field, null, as_str, obj, str, cons, end, arr, nil}
use a2a_compliance.Governance.Signed.{SignedGovernanceBlock}
use a2a_compliance.Wire.Admission.{AdmitArguments, AdmissionResult, decision_admitted}
use a2a_compliance.Wire.Admission.Permit.{Issuer, PermitArguments}
use a2a_compliance.Wire.Executor.{ExecutionArguments}
use a2a_compliance.Team.Plan.{ControlPlan, protocol, disposition_advisory}
use a2a_compliance.Grounding.{action_no_steer}

-- Every text has the digest "digest", every signature verifies and every instant reads as 100.
abbrev pub test_host : Host
test_host = record {
  sha256_hex = λ s. "digest";
  sha256 = λ s. [];
  urlsafe_b64encode = λ b. "";
  urlsafe_b64decode = λ s. some [];
  b64decode = λ s. some [];
  ed25519_verify = λ key signature message. true;
  schema_errors = λ t v. [];
  fromisoformat = λ s. some (aware 100);
  isoformat = λ t. "later";
}

abbrev pub test_binding : TrustBinding
test_binding = record {
  public_key = [];
  object_types = "*" ∷ [];
  roles = "human" ∷ "policy-author" ∷ "oversight-assessor" ∷ [];
  identity = some "ann";
}

abbrev pub test_trust : TrustStore
test_trust key_id = some test_binding

abbrev pub test_ports : Ports
test_ports = record {
  trust_store = some test_trust;
  revocation_store = some (λ t i at. false);
  now = none;
  clock = 50;
}

-- An object of a type that verifies, with further fields.
abbrev pub signed_object : String → Fields → Fields
signed_object obj_type rest = field "type" (str obj_type) (
    field "expires_at" (str "later") (
      field "run_id" (str "run") (
        field "nonce" (str "once") (
          field "key_id" (str "key")
            (field "subject_digest" (str "digest") (field "signature" (str "sig") rest))))))

abbrev pub test_receipt : Fields
test_receipt = signed_object "StageReceipt" (
    field "capability" (str "tool:brief") (
      field "role" (str "oversight-assessor") (
        field "issuer" (str "ann")
          (field "action_digest" (str "digest") (field "status" (str "SATISFIED") end)))))

abbrev pub test_approval : Fields
test_approval = signed_object "HumanApprovalReceipt" (
    field "approver" (obj (field "id" (str "ann") (field "role" (str "human") end))) (
      field "permitted_action_digest" (str "digest")
        (field "scope" (str "session") (field "reservations" (arr (cons (str "watch") nil)) end))))

abbrev pub test_permit : Fields
test_permit = signed_object "ExecutionPermit" (
    field "enforcement_grade" (str "mediated") (
      field "constraints"
        (obj (field "tool" (str "mail") (field "arguments_digest" (str "digest") end))) end))

abbrev pub test_governance : GovernanceBlock
test_governance = record {
  grade = null;
  action_kinds = "read" ∷ [];
  reserved = field "pay" (str "board") end;
  prohibited = "erase" ∷ [];
  obligations = "log" ∷ [];
  budget = end;
}

abbrev pub test_signed_block : SignedGovernanceBlock
test_signed_block = record {
  block = test_governance;
  digest = "digest";
  signer_key_id = "key";
  signer_identity = "ann";
  signature = "sig";
}

-- A plan of the protocol profile for an action kind.
abbrev pub test_plan : String → ControlPlan
test_plan kind = record {
  profile = protocol;
  maker_id = "bot";
  target_kind = kind;
  steps = [];
  ruling = record { decision = steer; kind = kind; reason = within_actions; reserved_by = null };
  ready = true;
  disposition = disposition_advisory;
  missing_required = [];
  missing_supporting = [];
  obligations = "log" ∷ [];
  grounding_result = none;
  recommended_action = action_no_steer;
  action_digest = "digest";
}

abbrev pub test_arguments : AdmitArguments
test_arguments = record {
  governance = test_governance;
  trust_store = test_trust;
  ports = test_ports;
  approval = some test_approval;
  approver_authority = some (λ kind id role. true);
  acknowledged_obligations = "log" ∷ [];
  signed_governance_block = some test_signed_block;
  policy_author_role = "policy-author";
}

-- `str` of a text
abbrev pub test_str : Value → String
test_str v = elim (as_str v) [ none ↦ "None" | some s ↦ s ]

abbrev pub test_issuer : Issuer
test_issuer = record { key_id = "issuer-key"; identity = "issuer"; sign = λ d. "sig" }

abbrev pub test_admission : AdmissionResult
test_admission = record {
  decision = decision_admitted;
  action_digest = "digest";
  kind = "pay";
  reasons = [];
  approval_reservations = cons (str "watch") nil;
  governance_block_digest = some "digest";
}

abbrev pub test_permit_arguments : PermitArguments
test_permit_arguments = record {
  issuer = test_issuer;
  enforcement_grade = "mediated";
  adapter = "mailer";
  run_id = "run";
  nonce = "once";
  expires_at = aware 100;
  constraints = some (field "reservations" null end);
  approval = some test_approval;
  aud = none;
  cnf = none;
  issued_at = none;
  now_clock = 50;
  schema_version = "1.0.0";
}

abbrev pub test_execution : ExecutionArguments
test_execution = record {
  tool = "mail";
  arguments = obj end;
  ports = test_ports;
  trust_store = test_trust;
  execute =
      λ tool v. record { effect = null; executor_id = "host"; executor_role = "tool-executor" };
  signer = test_issuer;
  dispatch_id = "dispatch";
  executor_identity = none;
  proof_of_possession = none;
  schema_version = "1.0.0";
  receipt_ttl = 10;
  started = 51;
  ended = 52;
}
