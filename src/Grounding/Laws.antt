-- ===== src/Grounding/Laws.antt =====
-- `_decide` and `_fold`: which findings lead to which action, and how the two agree.
use mathlib.Core.List.{Memᴰ}
use a2a_compliance.Verbs.{satisfied, not_satisfied, open_verdict, SteerVerdict}
use a2a_compliance.Grounding.{
  first, filter, decide, any, DimensionFinding, blocks, action_no_steer, over_ceiling, correctable,
  unassessed,
}
use a2a_compliance.Prelude.{
  List, Bool, ◌≡◌, none, ◌↔◌, false, ◌∷◌, true, arith, [], contains, ◌||◌, String, ◌==◌, inl,
  eq_iff, inr, refl, sym, ◌∙◌, ◌≢◌, ◌⊎◌, if◌then◌else◌,
}

first-any :
    (p : DimensionFinding → Bool) (fs : List DimensionFinding)
    → first p fs ≡ none ↔ any p fs ≡ false
unfolding first any
first-any p [] = ground arith
first-any p (f ∷ fs) = ground (arith, first-any p fs)

-- The findings of a dimension that is grounded.
abbrev pub grounded_findings : List DimensionFinding → List DimensionFinding
unfolding filter
grounded_findings fs = filter (λ f. f.grounded) fs

-- A finding that no loop of `_decide` returns on.
pub data IsIdle (f : DimensionFinding) : Type 0 where
  is_met : f.verdict ≡ satisfied → IsIdle f
  set_aside : f.verdict ≡ open_verdict → f.applicable ≡ false → IsIdle f
  unhandled :
      f.verdict ≡ not_satisfied
      → contains ("deontic" ∷ "proxy" ∷ "escalation" ∷ "mandate" ∷ "norm" ∷ []) f.dimension ≡ false
      → IsIdle f

handled_contains :
    (d : String)
    → ((d == "deontic" || d == "proxy") || (d == "escalation" || (d == "mandate" || d == "norm")))
      ≡ contains ("deontic" ∷ "proxy" ∷ "escalation" ∷ "mandate" ∷ "norm" ∷ []) d
handled_contains d = ground (
  arith,
  eq_iff d "deontic",
  eq_iff "deontic" d,
  eq_iff d "proxy",
  eq_iff "proxy" d,
  eq_iff d "escalation",
  eq_iff "escalation" d,
  eq_iff d "mandate",
  eq_iff "mandate" d,
  eq_iff d "norm",
  eq_iff "norm" d,
)

verdict_cases : (v : SteerVerdict) → (v ≡ satisfied) ⊎ ((v ≡ not_satisfied) ⊎ (v ≡ open_verdict))
verdict_cases satisfied = inl refl
verdict_cases not_satisfied = inr (inl refl)
verdict_cases open_verdict = inr (inr refl)

three_false : (a b c : Bool) → (a || (b || c)) ≡ false ↔ (a ≡ false) × (b ≡ false) × (c ≡ false)
three_false a b c = ground arith

-- No loop returns on the finding.
abbrev IsPassedOver : DimensionFinding → Type 0
IsPassedOver f =
    (blocks f ≡ false) × (over_ceiling f ≡ false) × (correctable f ≡ false) × (unassessed f ≡ false)

IsPassedOver-IsIdle : (f : DimensionFinding) → IsPassedOver f → IsIdle f
IsPassedOver-IsIdle f (b, o, c, u) = elim (verdict_cases f.verdict) [
  | inl e ↦ is_met e
  | inr (inl e) ↦ unhandled e (
      sym (handled_contains f.dimension)
      ∙ (three_false (f.dimension == "deontic" || f.dimension == "proxy")
            (f.dimension == "escalation") (f.dimension == "mandate" || f.dimension == "norm")).1
          (rw e at b, rw e at o, rw e at c))
  | inr (inr e) ↦ set_aside e (rw e at u)
]

IsIdle-IsPassedOver : (f : DimensionFinding) → IsIdle f → IsPassedOver f
IsIdle-IsPassedOver f i = elim i [
  | is_met e ↦ (rw e refl, rw e refl, rw e refl, rw e refl)
  | set_aside e a ↦ (rw e refl, rw e refl, rw e refl, rw e a)
  | unhandled e c ↦
      let (b, o, m) =
        (three_false (f.dimension == "deontic" || f.dimension == "proxy")
            (f.dimension == "escalation") (f.dimension == "mandate" || f.dimension == "norm")).0
          (handled_contains f.dimension ∙ c) in
      (rw e b, rw e o, rw e m, rw e refl)
]

or_false : (a b : Bool) → (a || b) ≡ false → (a ≡ false) × (b ≡ false)
or_false a b h = ground arith

both_false : (a b : Bool) → a ≡ false → b ≡ false → (a || b) ≡ false
both_false a b h k = ground arith

false_not_true : false ≢ true
false_not_true h = cc

any_if :
    (g : Bool) (p : DimensionFinding → Bool) (k : DimensionFinding) (ks : List DimensionFinding)
    → any p (if g then k ∷ ks else ks) ≡ false ↔ (g ≡ true → p k ≡ false) × (any p ks ≡ false)
unfolding any
any_if true p k ks = (
  λ h. (λ t. (or_false (p k) (any p ks) h).0, (or_false (p k) (any p ks) h).1),
  λ h. both_false (p k) (any p ks) (h.0 refl) h.1,
)
any_if false p k ks = (λ h. (λ t. absurd (false_not_true t), h), λ h. h.1)

any_cons :
    (p : DimensionFinding → Bool) (k : DimensionFinding) (ks : List DimensionFinding)
    → any p (grounded_findings (k ∷ ks)) ≡ false
      ↔ (k.grounded ≡ true → p k ≡ false) × (any p (grounded_findings ks) ≡ false)
unfolding filter
any_cons p k ks = any_if k.grounded p k (grounded_findings ks)

any-grounded :
    (p : DimensionFinding → Bool) (fs : List DimensionFinding)
    → any p (grounded_findings fs) ≡ false
      ↔ ((f : DimensionFinding) → Memᴰ f fs → f.grounded ≡ true → p f ≡ false)
unfolding any filter
any-grounded p [] = (λ h f m. elim m [ ], λ h. refl)
any-grounded p (k ∷ ks) =
    let step = any_cons p k ks in
    let rest = any-grounded p ks in
    (
      λ h f m. elim m [ Memᴰ.head e ↦ rw e (step.0 h).0 | Memᴰ.tail m ↦ rest.0 (step.0 h).1 f m ],
      λ h. step.1 (h k (Memᴰ.head refl), rest.1 (λ f m. h f (Memᴰ.tail m))),
    )

module _ (fs : List DimensionFinding) where
  no_loop :
      (decide fs).0 ≡ action_no_steer
      ↔ (any blocks (grounded_findings fs) ≡ false)
        × (any over_ceiling (grounded_findings fs) ≡ false)
        × (any correctable (grounded_findings fs) ≡ false)
        × (any unassessed (grounded_findings fs) ≡ false)
  unfolding decide
  no_loop = ground (
    arith,
    first-any blocks (grounded_findings fs),
    first-any over_ceiling (grounded_findings fs),
    first-any correctable (grounded_findings fs),
    first-any unassessed (grounded_findings fs),
  )

  -- No action is recommended exactly if every grounded finding is satisfied, or not satisfied in a
  -- dimension other than deontic, proxy, escalation, mandate and norm, or open and not applicable.
  -- So an evidence gate (falsifiability) that is not satisfied asks for nothing.
  pub decide-no_steer :
      (decide fs).0 ≡ action_no_steer
      ↔ ((f : DimensionFinding) → Memᴰ f fs → f.grounded ≡ true → IsIdle f)
  decide-no_steer =
      let (to_loops, of_loops) = no_loop in
      (
        λ h f m g.
            let (b, o, c, u) = to_loops h in
            IsPassedOver-IsIdle f (
              (any-grounded blocks fs).0 b f m g,
              (any-grounded over_ceiling fs).0 o f m g,
              (any-grounded correctable fs).0 c f m g,
              (any-grounded unassessed fs).0 u f m g,
            ),
        λ h. of_loops (
          (any-grounded blocks fs).1 (λ f m g. (IsIdle-IsPassedOver f (h f m g)).0),
          (any-grounded over_ceiling fs).1 (λ f m g. (IsIdle-IsPassedOver f (h f m g)).1),
          (any-grounded correctable fs).1 (λ f m g. (IsIdle-IsPassedOver f (h f m g)).2),
          (any-grounded unassessed fs).1 (λ f m g. (IsIdle-IsPassedOver f (h f m g)).3),
        ),
      )
