-- ===== src/BoundaryTests.antt =====
-- Tests of the boundary: authority.py, governance_block.py and grounding.py at concrete inputs.
use a2a_compliance.Governance.{may_steer, GovernanceBlock}
use a2a_compliance.Prelude.{
  ◌∷◌, ◌≡◌, true, [], ◌↔◌, none, contains, if◌then◌else◌, false, ◌==◌, ◌&&◌, ◌||◌,
}
use a2a_compliance.Grounding.{DimensionFinding, decide, action_no_steer}
use a2a_compliance.Verbs.{not_satisfied}
use a2a_compliance.Authority.{
  authorize, oversees, assign, default_roster, is_steer_verb, compliance_roles, roster_or_default,
  overseen,
}
use mathlib.Core.List.{Memᴰ}
use a2a_compliance.Grounding.Laws.{IsIdle}
use a2a_compliance.Json.{null, field, end, str, has}
use a2a_compliance.Verbs.{halt}
use a2a_compliance.Authority.Laws.{authorize-allowed, listed, oversees-assign}
use a2a_compliance.Grounding.Laws.{decide-no_steer}
use a2a_compliance.Governance.Laws.{may_steer_iff}

abbrev test_block : GovernanceBlock
test_block = record {
  grade = null;
  action_kinds = "read" ∷ [];
  reserved = field "pay" (str "board") end;
  prohibited = "erase" ∷ [];
  obligations = [];
  budget = end;
}

may_steer_iff_example : (may_steer test_block "read" ≡ true) ↔ (
    (contains test_block.prohibited "read" ≡ false)
    × (has "read" test_block.reserved ≡ false)
    × (contains test_block.action_kinds "read" ≡ true))
may_steer_iff_example = may_steer_iff test_block "read"

authorize-allowed_example : ((authorize "policy-compliance" halt "bot" none).allowed ≡ true) ↔ (
    (is_steer_verb halt ≡ true)
    × (contains compliance_roles "policy-compliance" ≡ true)
    × (oversees (roster_or_default none) "policy-compliance" "bot" ≡ true))
authorize-allowed_example = authorize-allowed "policy-compliance" halt "bot" none

oversees-assign_example :
    oversees (assign default_roster "policy-compliance" "bot") "policy-compliance" "other" ≡ (
      if "policy-compliance" == "policy-compliance"
      then contains compliance_roles "policy-compliance"
        && ("bot" == "other"
            || listed (overseen "policy-compliance" default_roster.oversight) "other")
      else oversees default_roster "policy-compliance" "other")
oversees-assign_example =
    oversees-assign default_roster "policy-compliance" "bot" "policy-compliance" "other"

abbrev gamed : DimensionFinding
gamed = record {
  dimension = "proxy";
  verdict = not_satisfied;
  grounded = true;
  provenance = "grounded-via-proxy";
  reason = "gamed";
  applicable = true;
  detail = end;
}

-- An evidence gate that is not satisfied.
abbrev self_reported : DimensionFinding
self_reported = record gamed { dimension = "falsifiability"; reason = "below the floor" }

decide-no_steer_example :
    ((decide (self_reported ∷ [])).0 ≡ action_no_steer)
    ↔ ((f : DimensionFinding) → Memᴰ f (self_reported ∷ []) → f.grounded ≡ true → IsIdle f)
decide-no_steer_example = decide-no_steer (self_reported ∷ [])
