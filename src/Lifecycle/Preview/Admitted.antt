-- ===== src/Lifecycle/Preview/Admitted.antt =====
-- `enforce_preview` admits only a ready plan whose preflight is complete.
use mathlib.Core.List.{Memᴰ}
use a2a_compliance.Lifecycle.Preview.Laws.{IsBound}
use a2a_compliance.Lifecycle.Preview.Receipts.{tool_name, AreDistinct, index-AreDistinct}
use a2a_compliance.Team.Plan.{ControlPlan, plan, plan_with, CapabilityInventory, ControlRequest}
use a2a_compliance.Prelude.{
  Bool, List, ◌≡◌, false, true, if◌then◌else◌, not, none, refl, some, map-eq-some, String, contains,
  sym, Bool-cases, inl, inr,
}
use a2a_compliance.Lifecycle.Preview.{
  enforce_preview, EnforcementPreview, StageReceipt, is_refused, is_route_human, by_action,
  required_tools,
}
use a2a_compliance.Host.{Host}
use a2a_compliance.Grounding.{action_no_steer, action_route_human}
use a2a_compliance.Lifecycle.Owners.{preflight_tools}
use a2a_compliance.Lifecycle.Preview.Laws.{IsCovered, by_action-IsCovered}

-- The conclusion of an admitted preview.
pub record IsAdmissible (p : ControlPlan) (receipts : List StageReceipt) : Type 0 where
  pub not_refused : is_refused p.disposition ≡ false
  pub not_reserved : is_route_human p.ruling.decision ≡ false
  pub ready : p.ready ≡ true
  pub no_steer : p.recommended_action ≡ action_no_steer
  pub all_bound :
      (r : StageReceipt) → Memᴰ r receipts → IsBound p.action_digest receipts (tool_name r) r
  pub distinct : AreDistinct receipts
  pub covered :
      (n : String)
      → contains (required_tools p.profile preflight_tools) n ≡ true
      → IsCovered p receipts n

gates :
    (a b c : Bool) (x y z w : EnforcementPreview)
    → x.admitted_flag ≡ false
    → y.admitted_flag ≡ false
    → z.admitted_flag ≡ false
    → (if a then x else if b then y else if not c then z else w).admitted_flag ≡ true
    → (a ≡ false) × (b ≡ false) × (c ≡ true) × (w.admitted_flag ≡ true)
gates true b c x y z w ex ey ez h = cc
gates false true c x y z w ex ey ez h = cc
gates false false false x y z w ex ey ez h = cc
gates false false true x y z w ex ey ez h = (refl, refl, refl, h)

-- An admitted preview means that the plan is ready and neither refused nor reserved, that its
-- recommended action is `no-steer`, that every receipt given is bound to the action's digest and
-- issued under the role that owns its tool, that no two receipts are for the same tool, and that in
-- the Loomground profile every preflight tool has such a receipt that is neither open, erroneous
-- nor failed.
pub enforce_preview-IsAdmissible :
    (p : ControlPlan) (receipts : List StageReceipt)
    → (enforce_preview p receipts).admitted_flag ≡ true
    → IsAdmissible p receipts
unfolding enforce_preview
enforce_preview-IsAdmissible p receipts h =
    let (a, b, c, d) =
      gates (is_refused p.disposition) (is_route_human p.ruling.decision) p.ready _ _ _
        (by_action p receipts p.recommended_action) refl refl refl h in
    let (no_steer, valid, covered) = by_action-IsCovered p receipts p.recommended_action d in
    let (all_bound, distinct) = index-AreDistinct p.action_digest receipts valid in
    record {
      not_refused = a;
      not_reserved = b;
      ready = c;
      no_steer = no_steer;
      all_bound = all_bound;
      distinct = distinct;
      covered = covered;
    }

-- The preview never admits a plan that was made without a grounding result, in the protocol
-- profile neither.
pub enforce_preview-plan :
    (host : Host) (inv : CapabilityInventory) (request : ControlRequest) (p : ControlPlan)
    (receipts : List StageReceipt)
    → plan host inv request none ≡ some p
    → (enforce_preview p receipts).admitted_flag ≡ false
unfolding plan plan_with
enforce_preview-plan host inv request p receipts h =
    let (digest, _, e) = map-eq-some _ _ p h in
    let routes : p.recommended_action ≡ action_route_human = rw (sym e) refl in
    elim (Bool-cases (enforce_preview p receipts).admitted_flag) [
      | inl flag ↦
          absurd (let n = (enforce_preview-IsAdmissible p receipts flag).no_steer in cc (n, routes))
      | inr unset ↦ unset
    ]
