-- ===== src/Lifecycle/Preview/Receipts.antt =====
-- `_index` that reports no invalid receipt: what it says of the receipts that are given.
use mathlib.Core.List.{Memᴰ}
use a2a_compliance.Lifecycle.Preview.Laws.{IsBound, finding_none}
use a2a_compliance.Lifecycle.Preview.{
  StageReceipt, receipt_finding, InvalidReceipt, Index, index, lookup, is_role, digest_mismatch,
  role_mismatch, duplicate,
}
use a2a_compliance.Prelude.{
  List, Bool, String, [], if◌then◌else◌, ◌∷◌, ◌==◌, not, ◌≡◌, ◌≢◌, is_none, false, some, none,
  Option-cases, true, inl, refl, arith, inr,
}
use a2a_compliance.Text.{remove_prefix}
use a2a_compliance.Lifecycle.Owners.{tool_owner}

abbrev pub tool_name : StageReceipt → String
tool_name r = remove_prefix "tool:" r.capability

-- No two of the receipts name the same tool.
pub data AreDistinct : List StageReceipt → Type 0 where
  no_receipt : AreDistinct []
  further :
      (r : StageReceipt) (rs : List StageReceipt)
      → ((s : StageReceipt) → Memᴰ s rs → (tool_name r == tool_name s) ≡ false)
      → AreDistinct rs
      → AreDistinct (r ∷ rs)

not_duplicate :
    (a b c : Bool) (x y z : InvalidReceipt)
    → (if not a then some x else if not b then some y else if not c then some z else none) ≡ none
    → c ≡ true
not_duplicate true true true x y z h = refl
not_duplicate true true false x y z h = cc
not_duplicate true false c x y z h = cc
not_duplicate false b c x y z h = cc

finding_new :
    (digest : String) (indexed : Index) (r : StageReceipt)
    → receipt_finding digest indexed r ≡ none
    → is_none (lookup (tool_name r) indexed) ≡ true
unfolding receipt_finding
finding_new digest indexed r h =
    let k = tool_name r in
    not_duplicate (r.action_digest == digest) (is_role (tool_owner k) r.role)
      (is_none (lookup k indexed)) (digest_mismatch k) (role_mismatch k) (duplicate k) h

no_more : (e : InvalidReceipt) (es : List InvalidReceipt) → (e ∷ es) ≢ []
no_more e es h = cc

-- A name that an index does not hold after an entry differs from the entry's.
absent_cons :
    (k n : String) (r : StageReceipt) (indexed : Index)
    → is_none (lookup n ((k, r) ∷ indexed)) ≡ true
    → ((k == n) ≡ false) × (is_none (lookup n indexed) ≡ true)
absent_cons k n r indexed h = ground arith

module _ (digest : String) (all : List StageReceipt) where
  -- What the fold over some of the receipts has shown, from the index before it.
  record IsIndexed (rs : List StageReceipt) (indexed : Index) : Type 0 where
    bound : (r : StageReceipt) → Memᴰ r rs → IsBound digest all (tool_name r) r
    distinct : AreDistinct rs
    unused : (r : StageReceipt) → Memᴰ r rs → is_none (lookup (tool_name r) indexed) ≡ true

  cons-IsIndexed :
      (r : StageReceipt) (rs : List StageReceipt) (indexed : Index)
      → IsBound digest all (tool_name r) r
      → is_none (lookup (tool_name r) indexed) ≡ true
      → IsIndexed rs ((tool_name r, r) ∷ indexed)
      → IsIndexed (r ∷ rs) indexed
  cons-IsIndexed r rs indexed b new rest = record {
    bound = λ s m. elim m [ Memᴰ.head e ↦ rw (e) b | Memᴰ.tail m ↦ rest.bound s m ];
    distinct =
        further r rs
          (λ s m. (absent_cons (tool_name r) (tool_name s) r indexed (rest.unused s m)).0)
          rest.distinct;
    unused = λ s m. elim m [
      | Memᴰ.head e ↦ rw (e) new
      | Memᴰ.tail m ↦ (absent_cons (tool_name r) (tool_name s) r indexed (rest.unused s m)).1
    ];
  }

  index-IsIndexed :
      (rs : List StageReceipt) (indexed : Index)
      → ((r : StageReceipt) → Memᴰ r rs → Memᴰ r all)
      → (index digest rs indexed).1 ≡ []
      → IsIndexed rs indexed
  unfolding index
  index-IsIndexed [] indexed sub h = record {
    bound = λ r m. elim m [ ];
    distinct = no_receipt;
    unused = λ r m. elim m [ ];
  }
  index-IsIndexed (r ∷ rs) indexed sub h = elim (Option-cases (receipt_finding digest indexed r)) [
    | inl fine ↦
        cons-IsIndexed r rs indexed
          (finding_none digest all indexed r (sub r (Memᴰ.head refl)) fine)
          (finding_new digest indexed r fine)
          (index-IsIndexed rs ((tool_name r, r) ∷ indexed) (λ s m. sub s (Memᴰ.tail m))
            (rw (fine, index) at h))
    | inr (e, found) ↦ absurd (no_more e _ (rw (found, index) at h))
  ]

-- With no invalid receipt, every receipt is bound and no two name the same tool.
pub index-AreDistinct :
    (digest : String) (rs : List StageReceipt)
    → (index digest rs []).1 ≡ []
    → ((r : StageReceipt) → Memᴰ r rs → IsBound digest rs (tool_name r) r) × AreDistinct rs
index-AreDistinct digest rs h =
    let i = index-IsIndexed digest rs rs [] (λ r m. m) h in (i.bound, i.distinct)
