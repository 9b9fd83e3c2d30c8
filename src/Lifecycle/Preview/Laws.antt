-- ===== src/Lifecycle/Preview/Laws.antt =====
-- What an admitted preview guarantees.
use mathlib.Core.List.{Memᴰ}
use a2a_compliance.Prelude.{
  String, Option, List, Bool, ◌≡◌, true, [], some, none, ◌∷◌, contains, ap, Bool-cases,
  Option-cases, false, eq_iff, ◌==◌, inl, inr, refl, if◌then◌else◌, ◌≢◌, not, ◌||◌, is_empty,
  is_empty-eq-true, is_none,
}
use a2a_compliance.Lifecycle.Preview.{
  select, is_role, StageReceipt, Index, receipt_finding, index, lookup, digest_mismatch,
  ReceiptStatus, EnforcementPreview, preflight, role_mismatch, has_status, Tally, is_unresolved,
  by_action, is_failed, tally_of, required_tools,
}
use a2a_compliance.Lifecycle.Owners.{tool_owner, preflight_tools}
use a2a_compliance.Text.{remove_prefix}
use mathlib.Core.Option.{some-injective}
use a2a_compliance.Team.Plan.{ControlPlan}
use a2a_compliance.Grounding.{
  Action, action_no_steer, action_route_human, action_hold, action_steer,
}

-- A receipt of the given ones, bound to the action, issued under the role that owns the tool.
pub record IsBound (digest : String) (all : List StageReceipt) (n : String) (r : StageReceipt)
    : Type 0 where
  pub given : Memᴰ r all
  pub bound : r.action_digest ≡ digest
  pub owned : tool_owner n ≡ some r.role
  pub named : remove_prefix "tool:" r.capability ≡ n

is_role-eq : (o : Option String) (role : String) → is_role o role ≡ true → o ≡ some role
is_role-eq none role h = cc
is_role-eq (some s) role h = ap some ((eq_iff s role).0 h)

passed :
    {A : Type 0} (a b : Bool) (x y : A) (rest : Option A)
    → (if not a then some x else if not b then some y else rest) ≡ none
    → (a ≡ true) × (b ≡ true)
passed true true x y rest h = (refl, refl)
passed true false x y rest h = cc
passed false b x y rest h = cc

module _ (digest : String) (all : List StageReceipt) where
  abbrev pub IndexIsBound : Index → Type 0
  IndexIsBound indexed =
      (n : String) (r : StageReceipt) → lookup n indexed ≡ some r → IsBound digest all n r

  pub finding_none :
      (indexed : Index) (r : StageReceipt)
      → Memᴰ r all
      → receipt_finding digest indexed r ≡ none
      → IsBound digest all (remove_prefix "tool:" r.capability) r
  unfolding receipt_finding
  finding_none indexed r given h =
      let k = remove_prefix "tool:" r.capability in
      let (bound, owned) =
        passed (r.action_digest == digest) (is_role (tool_owner k) r.role) (digest_mismatch k)
          (role_mismatch k) _ h in
      record {
        given = given;
        bound = (eq_iff r.action_digest digest).0 bound;
        owned = is_role-eq (tool_owner k) r.role owned;
        named = refl;
      }

  extended :
      (indexed : Index) (k : String) (r : StageReceipt)
      → IndexIsBound indexed
      → IsBound digest all k r
      → IndexIsBound ((k, r) ∷ indexed)
  extended indexed k r inv new n r' h = elim (Bool-cases (k == n)) [
    | inl same ↦
        let e : k ≡ n = (eq_iff k n).0 same in
        let e' : r ≡ r' = some-injective r r' (rw same at h) in
        let new' : IsBound digest all n r = rw e at new in rw e' at new'
    | inr other ↦ inv n r' (rw other at h)
  ]

  pub index-IsBound :
      (rs : List StageReceipt) (indexed : Index)
      → ((r : StageReceipt) → Memᴰ r rs → Memᴰ r all)
      → IndexIsBound indexed
      → IndexIsBound (index digest rs indexed).0
  unfolding index
  index-IsBound [] indexed sub inv = inv
  index-IsBound (r ∷ rs) indexed sub inv =
      let sub' : (s : StageReceipt) → Memᴰ s rs → Memᴰ s all = λ s m. sub s (Memᴰ.tail m) in
      elim (Option-cases (receipt_finding digest indexed r)) [
        | inl none_found ↦
            rw (none_found, index)
              (index-IsBound rs _ sub' (
                extended indexed (remove_prefix "tool:" r.capability) r inv
                  (finding_none indexed r (sub r (Memᴰ.head refl)) none_found)))
        | inr (e, found) ↦ rw (found, index) (index-IsBound rs indexed sub' inv)
      ]

cons-neq-nil : (s : String) (ss : List String) → (s ∷ ss) ≢ []
cons-neq-nil s ss h = cc

-- What `select` leaves out does not pass the test.
pub select-eq-nil :
    (p : String → Bool) (ns : List String) (n : String)
    → select p ns ≡ []
    → contains ns n ≡ true
    → p n ≡ false
unfolding select
select-eq-nil p [] n h c = cc
select-eq-nil p (m ∷ ns) n h c = elim (Bool-cases (p m)) [
  | inl t ↦ absurd (cons-neq-nil _ _ (rw t at h))
  | inr f ↦
      let rest : select p ns ≡ [] = rw f at h in
      elim (Bool-cases (m == n)) [
        | inl same ↦ let e : m ≡ n = (eq_iff m n).0 same in rw e at f
        | inr other ↦ select-eq-nil p ns n rest (rw other at c)
      ]
]

no_status :
    (p : ReceiptStatus → Bool) (o : Option StageReceipt) (r : StageReceipt)
    → has_status p o ≡ false
    → o ≡ some r
    → p r.status ≡ false
no_status p none r h e = cc
no_status p (some s) r h e = let same : s ≡ r = some-injective s r e in rw same at h

clear :
    (a b c d : Bool) (x y z : EnforcementPreview)
    → x.admitted_flag ≡ false
    → y.admitted_flag ≡ false
    → (if not a || (not b || not c) then x else if not d then y else z).admitted_flag ≡ true
    → (a ≡ true) × (b ≡ true) × (c ≡ true) × (d ≡ true)
clear true true true true x y z ex ey h = (refl, refl, refl, refl)
clear true true true false x y z ex ey h = cc
clear true true false d x y z ex ey h = cc
clear true false c d x y z ex ey h = cc
clear false b c d x y z ex ey h = cc

-- A preflight that admits has an empty tally.
preflight_admitted :
    (p : ControlPlan) (t : Tally)
    → (preflight p t).admitted_flag ≡ true
    → (t.invalid_receipts ≡ [])
      × (t.open_receipts ≡ [])
      × (t.missing_receipts ≡ [])
      × (t.failed_receipts ≡ [])
unfolding preflight
preflight_admitted p t h =
    let (a, b, c, d) =
      clear (is_empty t.invalid_receipts) (is_empty t.open_receipts) (is_empty t.missing_receipts)
        (is_empty t.failed_receipts) _ _ _ refl refl h in
    (is_empty-eq-true _ a, is_empty-eq-true _ b, is_empty-eq-true _ c, is_empty-eq-true _ d)

nothing : (s : StageReceipt) → lookup "" [] ≢ some s
nothing s h = cc

-- What the receipts must show of each tool that is required.
pub record IsCovered (p : ControlPlan) (receipts : List StageReceipt) (n : String) : Type 0 where
  pub receipt : StageReceipt
  pub bound : IsBound p.action_digest receipts n receipt
  pub resolved : is_unresolved receipt.status ≡ false
  pub not_failed : is_failed receipt.status ≡ false

some_not_none : (o : Option StageReceipt) → o ≡ none → is_none o ≢ false
some_not_none none e h = cc
some_not_none (some r) e h = cc

-- With none missing, open or failed, a required tool is covered.
pub tool-IsCovered :
    (p : ControlPlan) (receipts : List StageReceipt) (names : List String) (n : String)
    → select (λ n. is_none (lookup n (index p.action_digest receipts []).0)) names ≡ []
    → select (λ n. has_status is_unresolved (lookup n (index p.action_digest receipts []).0)) names
      ≡ []
    → select (λ n. has_status is_failed (lookup n (index p.action_digest receipts []).0)) names ≡ []
    → contains names n ≡ true
    → IsCovered p receipts n
tool-IsCovered p receipts names n complete resolved unfailed c =
    let indexed = index p.action_digest receipts [] in
    elim (Option-cases (lookup n indexed.0)) [
      | inl absent ↦ absurd (
          let e : is_none (lookup n indexed.0) ≡ false =
            select-eq-nil (λ n. is_none (lookup n indexed.0)) names n complete c in
          some_not_none (lookup n indexed.0) absent e)
      | inr (r, found) ↦ record {
        receipt = r;
        bound =
            index-IsBound p.action_digest receipts receipts [] (λ s m. m)
              (λ m s e. absurd (nothing s e)) n r found;
        resolved = no_status is_unresolved _ r (select-eq-nil _ names n resolved c) found;
        not_failed = no_status is_failed _ r (select-eq-nil _ names n unfailed c) found;
      }
    ]

module _ (p : ControlPlan) (receipts : List StageReceipt) where
  pub by_action-IsCovered :
      (a : Action)
      → (by_action p receipts a).admitted_flag ≡ true
      → (a ≡ action_no_steer)
        × ((index p.action_digest receipts []).1 ≡ [])
        × ((n : String)
            → contains (required_tools p.profile preflight_tools) n ≡ true
            → IsCovered p receipts n)
  unfolding by_action tally_of
  by_action-IsCovered action_route_human h = cc
  by_action-IsCovered action_hold h = cc
  by_action-IsCovered action_steer h = cc
  by_action-IsCovered action_no_steer h =
      let names = required_tools p.profile preflight_tools in
      let indexed = index p.action_digest receipts [] in
      let (valid, resolved, complete, passed_all) =
        preflight_admitted p (tally_of names indexed) h in
      (refl, valid, λ n c. tool-IsCovered p receipts names n complete resolved passed_all c)
