-- ===== src/Lifecycle/Tests.antt =====
-- The theorems on the lifecycle and the plan, at small plans.
use a2a_compliance.Lifecycle.Preview.{admitted, no_tally, protocol_admitted}
use a2a_compliance.Lifecycle.Preview.{preview, EnforcementPreview, ControlReceipt}
use a2a_compliance.Governance.{may_steer, rule}
use a2a_compliance.Prelude.{◌∷◌, some, [], Option, ◌≡◌, none, true, false, ◌↔◌, refl, is_none, ◌⊎◌}
use a2a_compliance.Grounding.{GroundingResult, action_no_steer}
use a2a_compliance.Team.Plan.{
  CapabilityInventory, ControlRequest, plan_with, plan, ControlPlan, protocol,
}
use a2a_compliance.Lifecycle.Preview.{
  receipt_finding, enforce_preview, StageReceipt, receipt_satisfied, index, select,
}
use a2a_compliance.Lifecycle.Preview.Admitted.{
  IsAdmissible, enforce_preview-IsAdmissible, enforce_preview-plan,
}
use a2a_compliance.Json.{null}
use a2a_compliance.Team.Plan.{loomground}
use a2a_compliance.Team.Plan.Supply.{IsSupplied}
use a2a_compliance.Wire.Canonical.{digest_hex, canon}
use a2a_compliance.Wire.Fixtures.{test_governance, test_host}
use a2a_compliance.Lifecycle.Owners.{tool_owner}
use a2a_compliance.Team.Plan.Laws.{plan-ready}
use a2a_compliance.Text.{remove_prefix}
use a2a_compliance.Lifecycle.Reconcile.{reconcile}
use a2a_compliance.Lifecycle.Reconcile.Laws.{IsReconciled, reconcile-IsReconciled}

abbrev no_capabilities : CapabilityInventory
no_capabilities = record { tools = []; skills = []; contracts = []; distributions = [] }

abbrev good_grounding : GroundingResult
good_grounding = record {
  findings = [];
  grounding = none;
  recommended_action = action_no_steer;
  reason = "";
  directive = none;
}

abbrev small_request : ControlRequest
small_request = record {
  context = record {
    maker_id = "bot";
    proposed_action = null;
    policy = null;
    policy_text = none;
    mandate = null;
    trajectory = null;
    claims = null;
    autonomy = null;
    proxies = null;
  };
  target_kind = "read";
  governance = test_governance;
  profile = protocol;
  require_tools = [];
  require_skills = [];
}

abbrev small_plan : Option GroundingResult → ControlPlan
unfolding plan_with
small_plan result = plan_with no_capabilities small_request result "digest"

planned_small :
    (result : Option GroundingResult)
    → plan test_host no_capabilities small_request result ≡ some (small_plan result)
unfolding plan digest_hex canon small_plan
planned_small result = refl

abbrev family_request : ControlRequest
family_request = record small_request { profile = loomground; require_tools = "review" ∷ [] }

abbrev family_plan : ControlPlan
unfolding plan_with
family_plan = plan_with no_capabilities family_request (some good_grounding) "digest"

planned_family :
    plan test_host no_capabilities family_request (some good_grounding) ≡ some family_plan
unfolding plan digest_hex canon family_plan
planned_family = refl

plan-ready_example : (family_plan.ready ≡ true) ↔ (
    (may_steer test_governance "read" ≡ true)
    × ((loomground ≡ protocol)
        ⊎ (IsSupplied no_capabilities family_request × (is_none (some good_grounding) ≡ false))))
plan-ready_example =
    plan-ready test_host no_capabilities family_request (some good_grounding) family_plan
      planned_family

enforce_preview-plan_example : (enforce_preview (small_plan none) []).admitted_flag ≡ false
enforce_preview-plan_example =
    enforce_preview-plan test_host no_capabilities small_request (small_plan none) []
      (planned_small none)

abbrev brief_receipt : StageReceipt
brief_receipt = record {
  role = "oversight-assessor";
  capability = "tool:brief";
  status = receipt_satisfied;
  action_digest = "digest";
  input_digest = "in";
  output_digest = some "out";
  reason = "";
}

small_admitted :
    (enforce_preview (small_plan (some good_grounding)) (brief_receipt ∷ [])).admitted_flag ≡ true
unfolding enforce_preview small_plan plan_with rule tool_owner index receipt_finding remove_prefix
    select
small_admitted = refl

enforce_preview-IsAdmissible_example :
    IsAdmissible (small_plan (some good_grounding)) (brief_receipt ∷ [])
enforce_preview-IsAdmissible_example =
    enforce_preview-IsAdmissible (small_plan (some good_grounding)) (brief_receipt ∷ [])
      small_admitted

abbrev admitted_preview : EnforcementPreview
admitted_preview = preview admitted true "digest" (no_tally []) protocol_admitted

abbrev dispatched_receipt : ControlReceipt
dispatched_receipt = record {
  action_digest = "digest";
  dispatch_id = "dispatch";
  observed_effects_digest = "effects";
  human_approval_ref = some "approval";
}

abbrev oversight_receipt : StageReceipt
oversight_receipt = record {
  role = "assurance-recorder";
  capability = "tool:oversight_verify";
  status = receipt_satisfied;
  action_digest = "digest";
  input_digest = "in";
  output_digest = some "out";
  reason = "";
}

dispatch_certified :
    (reconcile
      (small_plan none)
      admitted_preview
      dispatched_receipt
      (oversight_receipt ∷ [])).certified_flag
    ≡ true
unfolding reconcile small_plan plan_with tool_owner index receipt_finding remove_prefix select
dispatch_certified = refl

reconcile-IsReconciled_example :
    IsReconciled (small_plan none) admitted_preview dispatched_receipt (oversight_receipt ∷ [])
reconcile-IsReconciled_example =
    reconcile-IsReconciled (small_plan none) admitted_preview dispatched_receipt
      (oversight_receipt ∷ []) dispatch_certified
