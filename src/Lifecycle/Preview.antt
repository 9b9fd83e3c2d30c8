-- ===== src/Lifecycle/Preview.antt =====
-- lifecycle.py: the fold of stage receipts before a dispatch and after it.
pub mod Laws
pub mod Receipts
pub mod Admitted
use a2a_compliance.Prelude.{
  String, List, Bool, Option, none, false, if◌then◌else◌, ◌∷◌, true, is_none, [], ◌==◌, some, not,
  is_empty, ◌||◌,
}
use a2a_compliance.Governance.{RulingReason, SteerDecision, route_human}
use a2a_compliance.Lifecycle.Owners.{tool_owner, preflight_tools}
use a2a_compliance.Text.{remove_prefix}
use a2a_compliance.Team.Plan.{
  ControlPlan, Disposition, TeamProfile, disposition_refuse, is_loomground,
}
use a2a_compliance.Grounding.{
  Action, action_route_human, action_hold, action_steer, action_no_steer,
}

pub data ReceiptStatus : Type 0 where
  receipt_satisfied receipt_not_applicable receipt_not_satisfied receipt_open receipt_error :
      ReceiptStatus

pub data RunState : Type 0 where
  planned assessed admitted held routed_human refused dispatched reconciled certified : RunState

pub record StageReceipt : Type 0 where
  pub role : String
  pub capability : String
  pub status : ReceiptStatus
  pub action_digest : String
  pub input_digest : String
  pub output_digest : Option String
  pub reason : String

-- The texts of `invalid_receipts`.
pub data InvalidReceipt : Type 0 where
  digest_mismatch role_mismatch duplicate : String → InvalidReceipt
  preview_not_admitted lifecycle_digest_mismatch : InvalidReceipt

-- The reasons of `enforce_preview` and `reconcile`.
pub data Reason : Type 0 where
  ruled : RulingReason → Reason
  plan_not_ready grounding_routes correction_required preflight_incomplete : Reason
  preflight_not_satisfied preflight_satisfied protocol_admitted : Reason
  no_admission not_bound postflight_incomplete postflight_satisfied : Reason

-- The four tuples of names that a fold reports.
pub record Tally : Type 0 where
  pub missing_receipts : List String
  pub open_receipts : List String
  pub failed_receipts : List String
  pub invalid_receipts : List InvalidReceipt

-- `dispatch_performed` is never set and stays false.
pub record EnforcementPreview : Type 0 where
  pub state : RunState
  pub admitted_flag : Bool
  pub action_digest : String
  pub tally : Tally
  pub reason : Reason

pub record ControlReceipt : Type 0 where
  pub action_digest : String
  pub dispatch_id : String
  pub observed_effects_digest : String
  pub human_approval_ref : Option String

pub record Reconciliation : Type 0 where
  pub state : RunState
  pub certified_flag : Bool
  pub action_digest : String
  pub tally : Tally
  pub reason : Reason

-- The index: a dict from the name of a tool to its receipt.
abbrev pub Index : Type 0
Index = List (String × StageReceipt)

abbrev pub lookup : String → Index → Option StageReceipt
lookup k [] = none
lookup k ((j, r) ∷ l) = if j == k then some r else lookup k l

abbrev pub is_role : Option String → String → Bool
is_role none role = false
is_role (some owner) role = owner == role

-- Why a receipt is not indexed, in the order of the tests.
unfoldable pub receipt_finding : String → Index → StageReceipt → Option InvalidReceipt
unfolding tool_owner remove_prefix
receipt_finding digest indexed r =
    let k = remove_prefix "tool:" r.capability in
    if not (r.action_digest == digest)
    then some (digest_mismatch k)
    else if not (is_role (tool_owner k) r.role)
    then some (role_mismatch k)
    else if not (is_none (lookup k indexed))
    then some (duplicate k)
    else none

-- `_index`, from the index of the receipts before
unfoldable pub index : String → List StageReceipt → Index → Index × List InvalidReceipt
unfolding receipt_finding remove_prefix
index digest [] indexed = (indexed, [])
index digest (r ∷ rs) indexed =
    let skipped = index digest rs indexed in
    let kept = index digest rs ((remove_prefix "tool:" r.capability, r) ∷ indexed) in
    elim (receipt_finding digest indexed r) [ none ↦ kept | some e ↦ (skipped.0, e ∷ skipped.1) ]

abbrev pub is_unresolved : ReceiptStatus → Bool
is_unresolved receipt_open = true
is_unresolved receipt_error = true
is_unresolved _ = false

abbrev pub is_failed : ReceiptStatus → Bool
is_failed receipt_not_satisfied = true
is_failed _ = false

abbrev pub has_status : (ReceiptStatus → Bool) → Option StageReceipt → Bool
has_status p none = false
has_status p (some r) = p r.status

-- `tuple(name for name in required if p(name))`
unfoldable pub select : (String → Bool) → List String → List String
select p [] = []
select p (n ∷ ns) = let rest = select p ns in if p n then n ∷ rest else rest

-- `_receipt_findings`, with the invalid receipts
unfoldable pub tally_of : List String → Index × List InvalidReceipt → Tally
unfolding select
tally_of required (indexed, invalid) = record {
  missing_receipts = select (λ n. is_none (lookup n indexed)) required;
  open_receipts = select (λ n. has_status is_unresolved (lookup n indexed)) required;
  failed_receipts = select (λ n. has_status is_failed (lookup n indexed)) required;
  invalid_receipts = invalid;
}

abbrev pub no_tally : List InvalidReceipt → Tally
no_tally invalid = record {
  missing_receipts = [];
  open_receipts = [];
  failed_receipts = [];
  invalid_receipts = invalid;
}

abbrev pub preview : RunState → Bool → String → Tally → Reason → EnforcementPreview
preview state flag digest t reason = record {
  state = state;
  admitted_flag = flag;
  action_digest = digest;
  tally = t;
  reason = reason;
}

-- The fold over the preflight receipts, once the plan lets it through.
unfoldable pub preflight : ControlPlan → Tally → EnforcementPreview
preflight p t =
    if not (is_empty t.invalid_receipts)
      || (not (is_empty t.open_receipts) || not (is_empty t.missing_receipts))
    then preview routed_human false p.action_digest t preflight_incomplete
    else if not (is_empty t.failed_receipts)
    then preview held false p.action_digest t preflight_not_satisfied
    else preview admitted true p.action_digest (no_tally [])
        (if is_loomground p.profile then preflight_satisfied else protocol_admitted)

abbrev pub is_refused : Disposition → Bool
is_refused disposition_refuse = true
is_refused _ = false

abbrev pub is_route_human : SteerDecision → Bool
is_route_human route_human = true
is_route_human _ = false

-- The names of the tools that must report.
abbrev pub required_tools : TeamProfile → List String → List String
required_tools profile names = if is_loomground profile then names else []

-- The last branches, by the recommended action.
unfoldable pub by_action : ControlPlan → List StageReceipt → Action → EnforcementPreview
unfolding preflight tally_of index
by_action p receipts action_route_human =
    preview routed_human false p.action_digest (no_tally []) grounding_routes
by_action p receipts action_hold =
    preview held false p.action_digest (no_tally []) correction_required
by_action p receipts action_steer =
    preview held false p.action_digest (no_tally []) correction_required
by_action p receipts action_no_steer =
    preflight p
      (tally_of (required_tools p.profile preflight_tools) (index p.action_digest receipts []))

unfoldable pub enforce_preview : ControlPlan → List StageReceipt → EnforcementPreview
unfolding by_action
enforce_preview p receipts =
    if is_refused p.disposition
    then preview refused false p.action_digest (no_tally []) (ruled p.ruling.reason)
    else if is_route_human p.ruling.decision
    then preview routed_human false p.action_digest (no_tally []) (ruled p.ruling.reason)
    else if not p.ready
    then preview routed_human false p.action_digest (no_tally []) plan_not_ready
    else by_action p receipts p.recommended_action
