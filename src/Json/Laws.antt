-- ===== src/Json/Laws.antt =====
-- Lookups after updates of a dict.
use a2a_compliance.Prelude.{
  String, ◌≡◌, refl, arith, ◌==◌, eq_iff, eq_refl, if◌then◌else◌, false, Bool-cases, true, inl, inr,
}
use a2a_compliance.Json.{
  Value, Fields, get, put, end, field, put_given, null, has, obj, is_null, arr, bool, nat, neg, str,
  float,
}

pub get-put :
    (j k : String) (v : Value) (d : Fields) → get j (put k v d) ≡ (if k == j then v else get j d)
get-put j k v end = refl
get-put j k v (field i w d) = ground (arith, eq_iff i k, eq_iff i j, eq_iff k j, get-put j k v d)

pub get-put_self : (k : String) (v : Value) (d : Fields) → get k (put k v d) ≡ v
get-put_self k v d = simp (get-put, eq_refl)

pub get-put_other :
    (j k : String) (v : Value) (d : Fields) → k == j ≡ false → get j (put k v d) ≡ get j d
get-put_other j k v d h = rw h at (get-put j k v d)

-- An optional field is read back, and leaves the others alone.
pub get-put_given_other :
    (j k : String) (v : Value) (d : Fields) → (k == j) ≡ false → get j (put_given k v d) ≡ get j d
get-put_given_other j k v d h = elim (Bool-cases (is_null v)) [
  | inl e ↦ rw e refl
  | inr e ↦ rw e (get-put_other j k v d h)
]

pub get-put_given_self :
    (k : String) (v : Value) (d : Fields) → get k d ≡ null → get k (put_given k v d) ≡ v
get-put_given_self k null d h = h
get-put_given_self k (obj w) d h = get-put_self k (obj w) d
get-put_given_self k (arr w) d h = get-put_self k (arr w) d
get-put_given_self k (bool w) d h = get-put_self k (bool w) d
get-put_given_self k (nat w) d h = get-put_self k (nat w) d
get-put_given_self k (neg w) d h = get-put_self k (neg w) d
get-put_given_self k (str w) d h = get-put_self k (str w) d
get-put_given_self k (float w) d h = get-put_self k (float w) d

pub has-put : (j k : String) (v : Value) (d : Fields) → has j d ≡ true → has j (put k v d) ≡ true
has-put j k v end h = cc
has-put j k v (field i w d) h = ground (arith, has-put j k v d, eq_iff i k)

pub has-put_given :
    (j k : String) (v : Value) (d : Fields) → has j d ≡ true → has j (put_given k v d) ≡ true
has-put_given j k v d h = elim (Bool-cases (is_null v)) [
  | inl e ↦ rw e h
  | inr e ↦ rw e (has-put j k v d h)
]

pub has-put_self : (k : String) (v : Value) (d : Fields) → has k (put k v d) ≡ true
has-put_self k v end = ground (arith, eq_refl k)
has-put_self k v (field i w d) = ground (arith, eq_refl k, has-put_self k v d)
