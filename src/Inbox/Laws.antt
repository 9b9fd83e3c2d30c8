-- ===== src/Inbox/Laws.antt =====
-- inbox.py: the loop that claims a sequence number ends, with the least free number.
use native.Mathlib.Decide.{dec_lt}
use a2a_compliance.Inbox.{Mailbox, claimed, first_free, next_seq}
use a2a_compliance.Prelude.{
  ℕ, List, ◌∷◌, ◌≤◌, suc, ◌≡◌, ◌<◌, if◌then◌else◌, length, arith, true, false, some, leb, [],
  Bool-cases, inl, inr, zero, refl,
}

-- how many claims lie at n or above
above : ℕ → List ℕ → ℕ
above n [] = 0
above n (c ∷ cs) = let rest = above n cs in if leb n c then suc rest else rest

above-le : (n : ℕ) (cs : List ℕ) → above n cs ≤ length cs
unfolding above
above-le n [] = omega arith
above-le n (c ∷ cs) = ground (arith, above-le n cs)

above_mono : (n : ℕ) (cs : List ℕ) → above (suc n) cs ≤ above n cs
unfolding above
above_mono n [] = omega arith
above_mono n (c ∷ cs) = ground (arith, above_mono n cs)

above-claimed : (n : ℕ) (cs : List ℕ) → claimed cs n ≡ true → above (suc n) cs < above n cs
unfolding above claimed
above-claimed n [] h = cc
above-claimed n (c ∷ cs) h = ground (arith, above_mono n cs, above-claimed n cs)

-- What the loop promises from n on.
pub record IsLeastFree (claims : List ℕ) (from_n : ℕ) (n : ℕ) : Type 0 where
  pub free : claimed claims n ≡ false
  pub least : (k : ℕ) → from_n ≤ k → k < n → claimed claims k ≡ true

least_step :
    (claims : List ℕ) (n m : ℕ)
    → claimed claims n ≡ true
    → IsLeastFree claims (suc n) m
    → IsLeastFree claims n m
least_step claims n m h l = record {
  free = l.free;
  least = λ k a b. elim (dec_lt n k) [
    | yes p ↦ l.least k p b
    | no p ↦ (let e : k ≡ n = omega arith in rw e h)
  ];
}

first_free_total :
    (fuel n : ℕ) (claims : List ℕ)
    → above n claims < fuel
    → (m : ℕ) × (first_free fuel n claims ≡ some m) × IsLeastFree claims n m
unfolding first_free
first_free_total zero n claims h = absurd (omega arith)
first_free_total (suc fuel) n claims h = elim (Bool-cases (claimed claims n)) [
  | inl taken ↦
      (let (m, e, l) =
          first_free_total fuel (suc n) claims (omega (arith, above-claimed n claims taken)) in
        (m, rw taken e, least_step claims n m taken l))
  | inr free ↦ (n, rw free refl, record { free = free; least = λ k a b. absurd (omega arith) })
]

-- The search for a sequence number ends: with one round more than there are claims it returns a
-- number that is not claimed, and every smaller number is claimed.
pub next_seq-IsLeastFree :
    (box : Mailbox) → (n : ℕ) × (next_seq box ≡ some n) × IsLeastFree box.claims 0 n
unfolding next_seq
next_seq-IsLeastFree box =
    first_free_total (suc (length box.claims)) 0 box.claims (omega (arith, above-le 0 box.claims))
