-- ===== src/Team/Roles.antt =====
-- team.py: the capabilities of the Loomground family and the role that owns each.
use a2a_compliance.Prelude.{String, true, ◌∷◌, List, Bool, false, []}
use a2a_compliance.Text.{concat}

pub data CapabilityKind : Type 0 where
  tool skill contract distribution : CapabilityKind

pub record Capability : Type 0 where
  pub repo : String
  pub kind : CapabilityKind
  pub name : String
  pub required : Bool

abbrev pub kind_value : CapabilityKind → String
kind_value tool = "tool"
kind_value skill = "skill"
kind_value contract = "contract"
kind_value distribution = "distribution"

-- `Capability.key`
abbrev pub key : Capability → String
key c = concat (kind_value c.kind ∷ ":" ∷ c.name ∷ [])

pub record ComplianceRole : Type 0 where
  pub id : String
  pub purpose : String
  pub capabilities : List Capability

-- `_tool`, `_skill`, `_contract`, `_distribution`
abbrev tool_of : String → String → Capability
tool_of repo name = record { repo = repo; kind = tool; name = name; required = true }

abbrev skill_of : String → String → Capability
skill_of repo name = record { repo = repo; kind = skill; name = name; required = false }

abbrev contract_of : String → Bool → Capability
contract_of repo required = record {
  repo = repo;
  kind = contract;
  name = repo;
  required = required;
}

abbrev distribution_of : String → Capability
distribution_of repo = record { repo = repo; kind = distribution; name = repo; required = false }

abbrev pub conductor : ComplianceRole
conductor = record {
  id = "conductor";
  purpose = "Own the control plan, governance boundary and hand-offs.";
  capabilities =
      contract_of "loomground" true
      ∷ contract_of "loomground-governance" true
      ∷ contract_of "loomground-workspace" true
      ∷ contract_of "loomground-vertical" false
      ∷ contract_of "skill-governance-block" true
      ∷ contract_of "governance-layer" false
      ∷ contract_of "loomground-ref" false
      ∷ contract_of "a2a-compliance" true
      ∷ distribution_of "loomground-plugins"
      ∷ distribution_of "loomground-mcp"
      ∷ skill_of "loomground" "loomground"
      ∷ [];
}

abbrev pub evidence_grounder : ComplianceRole
evidence_grounder = record {
  id = "evidence-grounder";
  purpose = "Acquire, normalise and span-ground evidence.";
  capabilities =
      tool_of "loomground-ingest" "ingest_text"
      ∷ tool_of "loomground-versum" "versum_index"
      ∷ tool_of "loomground-versum" "versum_coords"
      ∷ tool_of "loomground-versum" "versum_cell"
      ∷ tool_of "loomground-versum" "nd_resolve"
      ∷ skill_of "loomground-ingest" "loomground-ingest"
      ∷ skill_of "loomground-versum" "loomground-kg"
      ∷ [];
}

abbrev pub policy_compiler : ComplianceRole
policy_compiler = record {
  id = "policy-compiler";
  purpose = "Compile written policy and reject unresolved conflicts.";
  capabilities =
      tool_of "policy-compiler" "policy_compile"
      ∷ tool_of "policy-compiler" "policy_check"
      ∷ skill_of "policy-compiler" "policy-compiler"
      ∷ [];
}

abbrev pub language_panel : ComplianceRole
language_panel = record {
  id = "language-panel";
  purpose = "Preserve factual, modal, normative and legal-language facets.";
  capabilities =
      tool_of "loomground-factual" "factual_lower"
      ∷ tool_of "loomground-epistemic" "epistemic_extract"
      ∷ tool_of "loomground-deontic" "deontic_parse"
      ∷ tool_of "loomground-deontic" "deontic_conflicts"
      ∷ tool_of "loomground-topos" "topos_parse"
      ∷ tool_of "loomground-norm" "norm_extract"
      ∷ contract_of "loomground-legal" false
      ∷ skill_of "loomground-factual" "factual"
      ∷ skill_of "loomground-epistemic" "epistemic"
      ∷ skill_of "loomground-deontic" "deontic"
      ∷ skill_of "loomground-topos" "topos"
      ∷ skill_of "loomground-norm" "norm"
      ∷ [];
}

abbrev pub decision_verifier : ComplianceRole
decision_verifier = record {
  id = "decision-verifier";
  purpose = "Evaluate the patch and independently verify the bounded verdict.";
  capabilities =
      tool_of "loomground-solver" "solver_evaluate"
      ∷ tool_of "loomground-solver" "solver_verify"
      ∷ skill_of "loomground-solver" "analyse-risks"
      ∷ [];
}

abbrev pub oversight_assessor : ComplianceRole
oversight_assessor = record {
  id = "oversight-assessor";
  purpose = "Find the limiting term, autonomy ceiling and review material.";
  capabilities =
      tool_of "loomground-brief" "brief"
      ∷ tool_of "loomground-collapse" "collapse"
      ∷ tool_of "loomground-escalation" "escalation"
      ∷ tool_of "loomground-falsifiability" "falsifiability"
      ∷ tool_of "loomground-mandate" "mandate"
      ∷ tool_of "loomground-proxy" "proxy"
      ∷ contract_of "oversight-ladder" true
      ∷ [];
}

abbrev pub runtime_controller : ComplianceRole
runtime_controller = record {
  id = "runtime-controller";
  purpose = "Preview admission, containment, drift and privacy controls.";
  capabilities =
      tool_of "loomground-lane" "lane_evaluate"
      ∷ tool_of "loomground-lock" "lock_text"
      ∷ tool_of "loomground-drift" "drift_breaker"
      ∷ tool_of "loomground-erasure" "erasure_sweep"
      ∷ tool_of "privacy-shield" "privacy_scan"
      ∷ skill_of "privacy-shield" "privacy-shield"
      ∷ [];
}

abbrev pub assurance_recorder : ComplianceRole
assurance_recorder = record {
  id = "assurance-recorder";
  purpose = "Verify the decision record and reconcile duties and effects.";
  capabilities =
      tool_of "governance-certification" "govcert_verify"
      ∷ tool_of "5d-nd" "nd_digest"
      ∷ contract_of "5d-nd" true
      ∷ tool_of "oversight-certificate" "oversight_issue"
      ∷ tool_of "oversight-certificate" "oversight_verify"
      ∷ tool_of "enforcement-posture" "enforcement_compare"
      ∷ tool_of "effect-reconciliation" "effect_reconcile"
      ∷ tool_of "norm-freshness" "norm_freshness"
      ∷ tool_of "obligation-discharge" "obligation_admit"
      ∷ tool_of "loomground-audit-chain" "audit_chain_verify"
      ∷ tool_of "evidence-emitter" "evidence_emit"
      ∷ tool_of "evidence-emitter" "evidence_verify"
      ∷ skill_of "evidence-emitter" "evidence-emitter"
      ∷ [];
}

-- `COMPLIANCE_ROLES`
abbrev pub compliance_team : List ComplianceRole
compliance_team =
    conductor ∷ evidence_grounder ∷ policy_compiler ∷ language_panel ∷ decision_verifier
    ∷ oversight_assessor ∷ runtime_controller ∷ assurance_recorder ∷ []
