-- ===== src/Inbox/Late.antt =====
-- inbox.py: what may happen between the claim of a number and the publication under it.
use a2a_compliance.Inbox.{
  Mailbox, Entry, claim, publish, next_seq, pending, matching, sort, last_seq, is_after, poll_box,
  insert, claimed, seq_limit,
}
use a2a_compliance.Prelude.{
  List, ℕ, Option, ◌≡◌, Bool, ◌++◌, ◌∷◌, [], some, false, ◌||◌, arith, ◌∙◌, true, Bool-cases, leb,
  refl, ltb, none, ◌&&◌, inl, &&-eq-true, inr,
}
use a2a_compliance.Json.{Fields}

-- A mailbox and the entries that its polls have returned.
pub record World : Type 0 where
  pub box : Mailbox
  pub delivered : List Entry

-- One action of some process: a claim, the publication of a message under a number that was
-- claimed, or a poll.
pub data Step : World → World → Type 0 where
  claims : (w : World) (n : ℕ) → next_seq w.box ≡ some n → Step w (record w { box = claim n w.box })
  publishes :
      (w : World) (n : ℕ) (d : Fields)
      → claimed w.box.claims n ≡ true
      → Step w (record w { box = publish n d w.box })
  polls :
      (w : World)
      → Step w (record { box = (poll_box w.box).1; delivered = w.delivered ++ pending w.box })

pub data Reach (s : World) : World → Type 0 where
  here : Reach s s
  next : {t u : World} → Reach s t → Step t u → Reach s u

-- whether an entry with the number n is in the list
unfoldable pub holds : ℕ → List Entry → Bool
holds n [] = false
holds n ((m, d) ∷ l) = (leb m n && leb n m) || holds n l

holds-append : (n : ℕ) (xs ys : List Entry) → holds n (xs ++ ys) ≡ (holds n xs || holds n ys)
unfolding holds
holds-append n [] ys = refl
holds-append n (x ∷ xs) ys = ground (arith, holds-append n xs ys)

holds-insert : (n : ℕ) (e : Entry) (l : List Entry) → holds n (insert e l) ≡ holds n (e ∷ l)
unfolding holds insert
holds-insert n e [] = refl
holds-insert n (k, d) ((m, c) ∷ l) = ground (arith, holds-insert n (k, d) l)

pub holds-sort : (n : ℕ) (l : List Entry) → holds n (sort l) ≡ holds n l
unfolding holds sort
holds-sort n [] = refl
holds-sort n (e ∷ l) = holds-insert n e (sort l) ∙ ground (arith, holds-sort n l)

-- The cursor has passed the number n.
abbrev pub IsPassed : ℕ → Option ℕ → Type 0
IsPassed n cursor = is_after cursor n ≡ false

matching-IsPassed :
    (n : ℕ) (cursor : Option ℕ) (l : List Entry)
    → IsPassed n cursor
    → holds n (matching cursor l) ≡ false
unfolding holds matching
matching-IsPassed n cursor [] h = refl
matching-IsPassed n none ((m, d) ∷ l) h = cc
matching-IsPassed n (some c) ((m, d) ∷ l) h = ground (arith, matching-IsPassed n (some c) l)

-- Every entry of the list lies behind the cursor.
abbrev AllAfter : Option ℕ → List Entry → Type 0
AllAfter cursor [] = Unit {0}
AllAfter cursor (e ∷ l) = (is_after cursor e.0 ≡ true) × AllAfter cursor l

pub matching-AllAfter : (cursor : Option ℕ) (l : List Entry) → AllAfter cursor (matching cursor l)
unfolding matching
matching-AllAfter cursor [] = tt
matching-AllAfter cursor ((n, d) ∷ l) = elim (Bool-cases (ltb n seq_limit && is_after cursor n)) [
  | inl e ↦
      rw e ((&&-eq-true (ltb n seq_limit) (is_after cursor n) e).1, matching-AllAfter cursor l)
  | inr e ↦ rw e (matching-AllAfter cursor l)
]

insert-AllAfter :
    (cursor : Option ℕ) (e : Entry) (l : List Entry)
    → is_after cursor e.0 ≡ true
    → AllAfter cursor l
    → AllAfter cursor (insert e l)
unfolding insert
insert-AllAfter cursor e [] h a = (h, tt)
insert-AllAfter cursor (n, d) ((m, c) ∷ l) h a = elim (Bool-cases (ltb m n)) [
  | inl t ↦ rw t (a.0, insert-AllAfter cursor (n, d) l h a.1)
  | inr t ↦ rw t (h, a)
]

pub sort-AllAfter :
    (cursor : Option ℕ) (l : List Entry) → AllAfter cursor l → AllAfter cursor (sort l)
unfolding sort
sort-AllAfter cursor [] a = tt
sort-AllAfter cursor (e ∷ l) a = insert-AllAfter cursor e (sort l) a.0 (sort-AllAfter cursor l a.1)

pub last_seq-IsPassed :
    (n : ℕ) (cursor old : Option ℕ) (l : List Entry)
    → IsPassed n cursor
    → IsPassed n old
    → AllAfter old l
    → IsPassed n (last_seq cursor l)
unfolding last_seq
last_seq-IsPassed n cursor old [] h o a = h
last_seq-IsPassed n cursor none ((m, d) ∷ l) h o a = cc
last_seq-IsPassed n cursor (some c) ((m, d) ∷ l) h o a =
    last_seq-IsPassed n (some m) (some c) l (ground arith) o a.1

record IsLost (n : ℕ) (w : World) : Type 0 where
  passed : IsPassed n w.box.cursor
  missing : holds n w.delivered ≡ false

Step-IsLost : (n : ℕ) {w u : World} → Step w u → IsLost n w → IsLost n u
unfolding claim publish poll_box pending
Step-IsLost n (claims w m e) l = record { passed = l.passed; missing = l.missing }
Step-IsLost n (publishes w m d c) l = record { passed = l.passed; missing = l.missing }
Step-IsLost n (polls w) l =
    let after : AllAfter w.box.cursor (sort (matching w.box.cursor w.box.files)) =
      sort-AllAfter w.box.cursor (matching w.box.cursor w.box.files)
        (matching-AllAfter w.box.cursor w.box.files) in
    record {
      passed =
          last_seq-IsPassed n w.box.cursor w.box.cursor (sort (matching w.box.cursor w.box.files))
            l.passed l.passed after;
      missing =
          rw
            (
              holds-append n w.delivered (sort (matching w.box.cursor w.box.files)),
              l.missing,
              holds-sort n (matching w.box.cursor w.box.files),
              matching-IsPassed n w.box.cursor w.box.files l.passed,
            )
            refl;
    }

Reach-IsLost : (n : ℕ) {w u : World} → Reach w u → IsLost n w → IsLost n u
Reach-IsLost n here l = l
Reach-IsLost n (next r s) l = Step-IsLost n s (Reach-IsLost n r l)

-- Once the cursor has passed a number of which no message was delivered, no later claims,
-- publications and polls deliver one: a message that is published under that number is lost.
pub Reach-holds :
    (n : ℕ) (w u : World)
    → IsPassed n w.box.cursor
    → holds n w.delivered ≡ false
    → Reach w u
    → holds n u.delivered ≡ false
Reach-holds n w u p m r = (Reach-IsLost n r (record { passed = p; missing = m })).missing
