-- ===== src/Json/Equality.antt =====
-- `==` on JSON values. Python's differs only at 1, 1.0 and True, and at dicts whose keys stand in
-- another order; the fields that the source compares hold texts or `None`.
use Prim.Native.Nat.{compare, Ordering}
use a2a_compliance.Prelude.{
  ℕ, Bool, true, false, ◌&&◌, ◌≡◌, refl, ◌↔◌, ap, arith, ◌==◌, eq_iff, eq_refl, &&-eq-true,
}
use a2a_compliance.Json.{
  Value, Items, Fields, null, bool, nat, neg, float, str, arr, obj, nil, cons, end, field,
}

abbrev same_bool : Bool → Bool → Bool
same_bool true b = b
same_bool false true = false
same_bool false false = true

abbrev same_nat : ℕ → ℕ → Bool
same_nat a b = elim (compare a b) [ Ordering.eq ↦ true | _ ↦ false ]

unfoldable mutual
  pub same : Value → Value → Bool
  same null null = true
  same (bool a) (bool b) = same_bool a b
  same (nat a) (nat b) = same_nat a b
  same (neg a) (neg b) = same_nat a b
  same (float a) (float b) = a == b
  same (str a) (str b) = a == b
  same (arr a) (arr b) = same_items a b
  same (obj a) (obj b) = same_fields a b
  same _ _ = false

  pub same_items : Items → Items → Bool
  same_items nil nil = true
  same_items (cons v a) (cons w b) = same v w && same_items a b
  same_items _ _ = false

  pub same_fields : Fields → Fields → Bool
  same_fields end end = true
  same_fields (field j v a) (field k w b) = (j == k && same v w) && same_fields a b
  same_fields _ _ = false

mutual
  unfolding same

  same_sound : (a b : Value) → same a b ≡ true → a ≡ b
  same_sound null null h = refl
  same_sound (bool a) (bool b) h = ground arith
  same_sound (nat a) (nat b) h = ground arith
  same_sound (neg a) (neg b) h = ground arith
  same_sound (float a) (float b) h = ground (arith, eq_iff a b)
  same_sound (str a) (str b) h = ground (arith, eq_iff a b)
  same_sound (arr a) (arr b) h = ap arr (same_items_sound a b h)
  same_sound (obj a) (obj b) h = ap obj (same_fields_sound a b h)
  same_sound _ _ h = cc

  same_items_sound : (a b : Items) → same_items a b ≡ true → a ≡ b
  same_items_sound nil nil h = refl
  same_items_sound (cons v a) (cons w b) h =
      let (p, q) = &&-eq-true (same v w) (same_items a b) h in
      cc (same_sound v w p, same_items_sound a b q)
  same_items_sound _ _ h = cc

  same_fields_sound : (a b : Fields) → same_fields a b ≡ true → a ≡ b
  same_fields_sound end end h = refl
  same_fields_sound (field j v a) (field k w b) h =
      let (p, q) = &&-eq-true (j == k && same v w) (same_fields a b) h in
      let (keys, values) = &&-eq-true (j == k) (same v w) p in
      cc ((eq_iff j k).0 keys, same_sound v w values, same_fields_sound a b q)
  same_fields_sound _ _ h = cc

mutual
  unfolding same

  same_complete : (a : Value) → same a a ≡ true
  same_complete null = refl
  same_complete (bool a) = ground arith
  same_complete (nat a) = ground arith
  same_complete (neg a) = ground arith
  same_complete (float a) = eq_refl a
  same_complete (str a) = eq_refl a
  same_complete (arr a) = same_items_complete a
  same_complete (obj a) = same_fields_complete a

  same_items_complete : (a : Items) → same_items a a ≡ true
  same_items_complete nil = refl
  same_items_complete (cons v a) = rw (same_complete v, same_items_complete a)

  same_fields_complete : (a : Fields) → same_fields a a ≡ true
  same_fields_complete end = refl
  same_fields_complete (field j v a) = rw (eq_refl j, same_complete v, same_fields_complete a)

-- The test answers `true` exactly for equal values.
pub same_iff : (a b : Value) → (same a b ≡ true) ↔ (a ≡ b)
same_iff a b = (same_sound a b, λ e. rw (← e) (same_complete a))
