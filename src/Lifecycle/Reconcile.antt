-- ===== src/Lifecycle/Reconcile.antt =====
-- lifecycle.py: `reconcile`, the fold of the postflight receipts.
pub mod Laws
use a2a_compliance.Lifecycle.Preview.{
  RunState, tally_of, ControlReceipt, Tally, index, Reason, Reconciliation, EnforcementPreview,
  admitted, required_tools, StageReceipt, reconciled, routed_human, postflight_incomplete, no_tally,
  certified, preview_not_admitted, postflight_satisfied, no_admission, lifecycle_digest_mismatch,
  not_bound,
}
use a2a_compliance.Prelude.{
  Option, Bool, String, true, false, List, some, if◌then◌else◌, not, ◌==◌, ◌++◌, is_empty, ◌||◌,
  none, ◌∷◌, [],
}
use a2a_compliance.Team.Plan.{ControlPlan}
use a2a_compliance.Lifecycle.Owners.{postflight_tools}

abbrev is_admitted : RunState → Bool
is_admitted admitted = true
is_admitted _ = false

abbrev outcome : RunState → Bool → String → Tally → Reason → Reconciliation
outcome state flag digest t reason = record {
  state = state;
  certified_flag = flag;
  action_digest = digest;
  tally = t;
  reason = reason;
}

-- `if control.human_approval_ref:`
abbrev given : Option String → Bool
given none = false
given (some s) = not (s == "")

abbrev pub required_after : ControlPlan → ControlReceipt → List String
required_after p control =
    required_tools p.profile postflight_tools
    ++ (if given control.human_approval_ref then "oversight_verify" ∷ [] else [])

-- The fold once the dispatch is bound to the plan.
postflight : ControlPlan → Tally → Reconciliation
postflight p t =
    if not (is_empty t.invalid_receipts)
      || (not (is_empty t.missing_receipts)
          || (not (is_empty t.open_receipts) || not (is_empty t.failed_receipts)))
    then outcome reconciled false p.action_digest t postflight_incomplete
    else outcome certified true p.action_digest (no_tally []) postflight_satisfied

unfoldable pub reconcile :
    ControlPlan → EnforcementPreview → ControlReceipt → List StageReceipt → Reconciliation
unfolding postflight tally_of index
reconcile p v control receipts =
    if not v.admitted_flag || not (is_admitted v.state)
    then outcome routed_human false p.action_digest (no_tally (preview_not_admitted ∷ []))
        no_admission
    else if not (v.action_digest == p.action_digest)
        || not (control.action_digest == p.action_digest)
    then outcome routed_human false p.action_digest (no_tally (lifecycle_digest_mismatch ∷ []))
        not_bound
    else postflight p (tally_of (required_after p control) (index p.action_digest receipts []))
