-- ===== src/Lifecycle/Reconcile/Laws.antt =====
-- What a certified reconciliation guarantees.
use mathlib.Core.List.{Memᴰ}
use a2a_compliance.Lifecycle.Preview.Receipts.{tool_name, AreDistinct, index-AreDistinct}
use a2a_compliance.Lifecycle.Preview.Laws.{IsCovered, IsBound}
use a2a_compliance.Team.Plan.{ControlPlan}
use a2a_compliance.Prelude.{
  Bool, ◌≡◌, List, false, if◌then◌else◌, true, not, ◌||◌, [], refl, String, is_empty, contains,
  is_empty-eq-true, ◌==◌, eq_iff,
}
use a2a_compliance.Lifecycle.Preview.{
  EnforcementPreview, Reconciliation, ControlReceipt, StageReceipt, index, Tally, tally_of,
}
use a2a_compliance.Lifecycle.Reconcile.{postflight, reconcile, required_after, is_admitted}
use a2a_compliance.Lifecycle.Preview.Laws.{tool-IsCovered}

-- Everything that a certified dispatch stands for.
pub record IsReconciled (p : ControlPlan) (v : EnforcementPreview) (control : ControlReceipt)
    (receipts : List StageReceipt) : Type 0 where
  pub admission : v.admitted_flag ≡ true
  pub preview_bound : v.action_digest ≡ p.action_digest
  pub dispatch_bound : control.action_digest ≡ p.action_digest
  pub all_valid : (index p.action_digest receipts []).1 ≡ []
  pub all_bound :
      (r : StageReceipt) → Memᴰ r receipts → IsBound p.action_digest receipts (tool_name r) r
  pub distinct : AreDistinct receipts
  pub covered : (n : String) → contains (required_after p control) n ≡ true → IsCovered p receipts n

outer :
    (a b c d : Bool) (x y z : Reconciliation)
    → x.certified_flag ≡ false
    → y.certified_flag ≡ false
    → (if not a || not b then x else if not c || not d then y else z).certified_flag ≡ true
    → (a ≡ true) × (c ≡ true) × (d ≡ true) × (z.certified_flag ≡ true)
outer true true true true x y z ex ey h = (refl, refl, refl, h)
outer true true true false x y z ex ey h = cc
outer true true false d x y z ex ey h = cc
outer true false c d x y z ex ey h = cc
outer false b c d x y z ex ey h = cc

inner :
    (a b c d : Bool) (x y : Reconciliation)
    → x.certified_flag ≡ false
    → (if not a || (not b || (not c || not d)) then x else y).certified_flag ≡ true
    → (a ≡ true) × (b ≡ true) × (c ≡ true) × (d ≡ true)
inner true true true true x y ex h = (refl, refl, refl, refl)
inner true true true false x y ex h = cc
inner true true false d x y ex h = cc
inner true false c d x y ex h = cc
inner false b c d x y ex h = cc

module _ (p : ControlPlan) (v : EnforcementPreview) (control : ControlReceipt)
    (receipts : List StageReceipt) where
  postflight_tally :
      (t : Tally)
      → (postflight p t).certified_flag ≡ true
      → (t.invalid_receipts ≡ [])
        × (t.missing_receipts ≡ [])
        × (t.open_receipts ≡ [])
        × (t.failed_receipts ≡ [])
  unfolding postflight
  postflight_tally t h =
      let (a, b, c, d) =
        inner (is_empty t.invalid_receipts) (is_empty t.missing_receipts) (is_empty t.open_receipts)
          (is_empty t.failed_receipts) _ _ refl h in
      (is_empty-eq-true _ a, is_empty-eq-true _ b, is_empty-eq-true _ c, is_empty-eq-true _ d)

  -- A dispatch is certified only if the preview was admitted, the preview and the dispatch are
  -- bound to the plan's action, every receipt given is bound to the action's digest and issued
  -- under the role that owns its tool, no two receipts are for the same tool, and each postflight
  -- tool of the profile, and `oversight_verify` where a human approved, has such a receipt that is
  -- neither open, erroneous nor failed.
  pub reconcile-IsReconciled :
      (reconcile p v control receipts).certified_flag ≡ true → IsReconciled p v control receipts
  unfolding reconcile tally_of
  reconcile-IsReconciled h =
      let names = required_after p control in
      let indexed = index p.action_digest receipts [] in
      let (a, c, d, inside) =
        outer v.admitted_flag (is_admitted v.state) (v.action_digest == p.action_digest)
          (control.action_digest == p.action_digest) _ _ _ refl refl h in
      let (valid, complete, resolved, unfailed) =
        postflight_tally (tally_of names indexed) inside in
      record {
        admission = a;
        preview_bound = (eq_iff v.action_digest p.action_digest).0 c;
        dispatch_bound = (eq_iff control.action_digest p.action_digest).0 d;
        all_valid = valid;
        all_bound = (index-AreDistinct p.action_digest receipts valid).0;
        distinct = (index-AreDistinct p.action_digest receipts valid).1;
        covered = λ n e. tool-IsCovered p receipts names n complete resolved unfailed e;
      }
