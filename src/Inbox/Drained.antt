-- ===== src/Inbox/Drained.antt =====
-- inbox.py: a poll takes all that waits, in whatever order the files were published.
use a2a_compliance.Prelude.{
  refl, ℕ, List, ◌∷◌, leb, [], Option, ◌≡◌, Bool-cases, true, ltb, arith, inl, inr, some, ◌&&◌,
  &&-eq-true, ◌∙◌, Bool, false,
}
use a2a_compliance.Inbox.{
  insert, sort, last_seq, matching, pending, Entry, poll_box, Mailbox, seq_limit, is_after,
}
use a2a_compliance.Inbox.Late.{
  holds, sort-AllAfter, IsPassed, matching-AllAfter, holds-sort, last_seq-IsPassed,
}
use a2a_compliance.Json.{Fields}

-- Every entry of the list has a number of at least k.
abbrev AllFrom : ℕ → List Entry → Type 0
AllFrom k [] = Unit {0}
AllFrom k (e ∷ l) = (leb k e.0 ≡ true) × AllFrom k l

abbrev IsSorted : List Entry → Type 0
IsSorted [] = Unit {0}
IsSorted (e ∷ l) = AllFrom e.0 l × IsSorted l

AllFrom-mono : (k j : ℕ) (l : List Entry) → leb k j ≡ true → AllFrom j l → AllFrom k l
AllFrom-mono k j [] h a = tt
AllFrom-mono k j ((n, d) ∷ l) h a = (ground (arith, a.0), AllFrom-mono k j l h a.1)

insert-AllFrom :
    (k : ℕ) (e : Entry) (l : List Entry) → leb k e.0 ≡ true → AllFrom k l → AllFrom k (insert e l)
unfolding insert
insert-AllFrom k e [] h a = (h, tt)
insert-AllFrom k (n, d) ((m, c) ∷ l) h a = elim (Bool-cases (ltb m n)) [
  | inl t ↦ rw t (a.0, insert-AllFrom k (n, d) l h a.1)
  | inr t ↦ rw t (h, a)
]

insert-IsSorted : (e : Entry) (l : List Entry) → IsSorted l → IsSorted (insert e l)
unfolding insert
insert-IsSorted e [] s = (tt, tt)
insert-IsSorted (n, d) ((m, c) ∷ l) s = elim (Bool-cases (ltb m n)) [
  | inl t ↦ rw t (insert-AllFrom m (n, d) l (ground arith) s.0, insert-IsSorted (n, d) l s.1)
  | inr t ↦ let le : leb n m ≡ true = ground arith in rw t ((le, AllFrom-mono n m l le s.0), s)
]

sort-IsSorted : (l : List Entry) → IsSorted (sort l)
unfolding sort
sort-IsSorted [] = tt
sort-IsSorted (e ∷ l) = insert-IsSorted e (sort l) (sort-IsSorted l)

-- The last number of a sorted list is its greatest.
last_seq_greatest :
    (n k : ℕ) (l : List Entry)
    → IsSorted l
    → AllFrom k l
    → leb n k ≡ true
    → IsPassed n (last_seq (some k) l)
unfolding last_seq
last_seq_greatest n k [] s a h = ground arith
last_seq_greatest n k ((m, d) ∷ l) s a h = last_seq_greatest n m l s.1 s.0 (ground (arith, a.0))

holds-IsPassed :
    (n : ℕ) (cursor : Option ℕ) (l : List Entry)
    → IsSorted l
    → holds n l ≡ true
    → IsPassed n (last_seq cursor l)
unfolding last_seq holds
holds-IsPassed n cursor [] s h = cc
holds-IsPassed n cursor ((m, d) ∷ l) s h = elim (Bool-cases (leb m n && leb n m)) [
  | inl e ↦ last_seq_greatest n m l s.1 s.0 (&&-eq-true (leb m n) (leb n m) e).1
  | inr e ↦ holds-IsPassed n (some m) l s.1 (rw e at h)
]

holds-matching_head :
    (n : ℕ) (d : Fields) (cursor : Option ℕ) (l : List Entry)
    → (ltb n seq_limit && is_after cursor n) ≡ true
    → holds n (matching cursor ((n, d) ∷ l)) ≡ true
unfolding matching holds
holds-matching_head n d cursor l h = rw h (ground arith)

holds-matching_tail :
    (k n : ℕ) (d : Fields) (cursor : Option ℕ) (l : List Entry)
    → holds k (matching cursor l) ≡ true
    → holds k (matching cursor ((n, d) ∷ l)) ≡ true
unfolding matching holds
holds-matching_tail k n d cursor l h = elim (Bool-cases (ltb n seq_limit && is_after cursor n)) [
  | inl t ↦ rw t (ground (arith, h))
  | inr t ↦ rw t h
]

skipped :
    (a o x : Bool) → ((a && o) ≡ true → x ≡ false) → (o ≡ false → x ≡ false) → (a && x) ≡ false
skipped true true x f g = f refl
skipped true false x f g = g refl
skipped false o x f g = refl

-- With a cursor that has passed what matched and what the old cursor had passed, nothing matches.
matching_none :
    (old new : Option ℕ) (files : List Entry)
    → ((n : ℕ) → holds n (matching old files) ≡ true → IsPassed n new)
    → ((n : ℕ) → IsPassed n old → IsPassed n new)
    → matching new files ≡ []
unfolding matching
matching_none old new [] found kept = refl
matching_none old new ((n, d) ∷ l) found kept =
    let quiet : (ltb n seq_limit && is_after new n) ≡ false =
      skipped (ltb n seq_limit) (is_after old n) (is_after new n)
        (λ h. found n (holds-matching_head n d old l h)) (kept n) in
    rw quiet (matching_none old new l (λ k h. found k (holds-matching_tail k n d old l h)) kept)

-- A poll leaves nothing that waits: whatever the published files, their order and the cursor of a
-- mailbox are, no message is pending after it.
pub pending-poll_box : (box : Mailbox) → pending (poll_box box).1 ≡ []
unfolding pending poll_box
pending-poll_box box =
    let cursor = box.cursor in
    let found = matching cursor box.files in
    let after = sort-AllAfter cursor found (matching-AllAfter cursor box.files) in
    let nothing =
      matching_none cursor (last_seq cursor (sort found)) box.files
        (λ n h. holds-IsPassed n cursor (sort found) (sort-IsSorted found) (holds-sort n found ∙ h))
        (λ n h. last_seq-IsPassed n cursor cursor (sort found) h h after) in
    rw nothing refl
