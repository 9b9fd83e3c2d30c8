-- ===== src/Lifecycle/Owners.antt =====
-- lifecycle.py: the tools that must report before and after a dispatch, and the owner of each tool.
use a2a_compliance.Prelude.{
  List, String, ◌∷◌, Bool, Option, [], true, if◌then◌else◌, ◌++◌, none, false, ◌==◌, some,
}
use a2a_compliance.Team.Roles.{CapabilityKind, Capability, ComplianceRole, compliance_team, tool}

abbrev pub preflight_tools : List String
preflight_tools =
    "ingest_text" ∷ "versum_index" ∷ "policy_compile" ∷ "policy_check" ∷ "factual_lower"
    ∷ "epistemic_extract" ∷ "deontic_parse" ∷ "deontic_conflicts" ∷ "topos_parse" ∷ "norm_extract"
    ∷ "solver_evaluate" ∷ "solver_verify" ∷ "brief" ∷ "collapse" ∷ "escalation" ∷ "falsifiability"
    ∷ "mandate" ∷ "proxy" ∷ "lane_evaluate" ∷ "lock_text" ∷ "drift_breaker" ∷ "privacy_scan" ∷ []

abbrev pub postflight_tools : List String
postflight_tools =
    "govcert_verify" ∷ "nd_digest" ∷ "enforcement_compare" ∷ "effect_reconcile" ∷ "norm_freshness"
    ∷ "obligation_admit" ∷ "audit_chain_verify" ∷ "evidence_emit" ∷ "evidence_verify" ∷ []

abbrev is_tool : CapabilityKind → Bool
is_tool tool = true
is_tool _ = false

role_tools : String → List Capability → List (String × String)
role_tools id [] = []
role_tools id (c ∷ cs) =
    let rest = role_tools id cs in if is_tool c.kind then (c.name, id) ∷ rest else rest

all_tools : List ComplianceRole → List (String × String)
all_tools [] = []
all_tools (r ∷ rs) = role_tools r.id r.capabilities ++ all_tools rs

-- A later entry of a dict comprehension replaces an earlier one.
last_owner : String → List (String × String) → Option String
last_owner k [] = none
last_owner k ((j, id) ∷ l) =
    let here = if j == k then some id else none in
    elim (last_owner k l) [ some id' ↦ some id' | none ↦ here ]

-- `TOOL_OWNERS.get(key)`
unfoldable pub tool_owner : String → Option String
unfolding last_owner all_tools role_tools
tool_owner k = last_owner k (all_tools compliance_team)
