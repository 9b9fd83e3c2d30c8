-- ===== src/Inbox/Queue.antt =====
-- inbox.py: without another process between a claim and its publication, a mailbox is a queue.
use native.Mathlib.Decide.{dec_lt}
use mathlib.Core.List.{append-nil, append_assoc}
use a2a_compliance.Inbox.{empty}
use a2a_compliance.Inbox.{
  Mailbox, Entry, claimed, next_seq, claim, publish, put_box, poll_box, pending, sort, matching,
  last_seq, messages, seq_limit, is_after,
}
use a2a_compliance.Inbox.Laws.{next_seq-IsLeastFree}
use a2a_compliance.Json.{Fields}
use a2a_compliance.Prelude.{
  List, ℕ, Bool, ◌++◌, suc, ◌∷◌, Option, length, ◌≡◌, ◌≤◌, ◌+◌, [], none, arith, leb, ap, some,
  refl, zero, ltb, true, false, sym, ◌∙◌,
}

-- One call on a mailbox.
pub data Call : Type 0 where
  put_call : Fields → Call
  poll_call : Call

-- The answers of the polls among the calls.
unfoldable pub run_box : (Fields → Bool) → List Call → Mailbox → List (List Fields)
run_box stores [] box = []
run_box stores (put_call d ∷ calls) box = run_box stores calls (put_box stores d box).1
run_box stores (poll_call ∷ calls) box = (poll_box box).0 ∷ run_box stores calls (poll_box box).1

-- The queue that a mailbox stands for: a poll takes all that waits.
unfoldable pub run_queue : List Call → List Fields → List (List Fields)
run_queue [] queue = []
run_queue (put_call d ∷ calls) queue = run_queue calls (queue ++ d ∷ [])
run_queue (poll_call ∷ calls) queue = queue ∷ run_queue calls []

abbrev pub puts : List Call → ℕ
puts [] = 0
puts (put_call d ∷ calls) = suc (puts calls)
puts (poll_call ∷ calls) = puts calls

numbered : ℕ → List Fields → List Entry
numbered n [] = []
numbered n (d ∷ ds) = (n, d) ∷ numbered (suc n) ds

-- The cursor behind the first c messages.
before : ℕ → Option ℕ
before zero = none
before (suc c) = some c

length-append {ℓ} : {A : Type ℓ} (xs ys : List A) → length (xs ++ ys) ≡ length xs + length ys
length-append [] ys = omega arith
length-append (x ∷ xs) ys = omega (arith, length-append xs ys)

numbered-append :
    (n : ℕ) (ds es : List Fields)
    → numbered n (ds ++ es) ≡ numbered n ds ++ numbered (n + length ds) es
unfolding numbered
numbered-append n [] es = ground arith
numbered-append n (d ∷ ds) es = ground (arith, numbered-append (suc n) ds es)

is_after-before : (c n : ℕ) → is_after (before c) n ≡ leb c n
unfolding before
is_after-before zero n = ground arith
is_after-before (suc c) n = ground arith

matching_new :
    (c n : ℕ) (ds : List Fields)
    → c ≤ n
    → n + length ds ≤ seq_limit
    → matching (before c) (numbered n ds) ≡ numbered n ds
unfolding matching numbered
matching_new c n [] h l = refl
matching_new c n (d ∷ ds) h l = ground (arith, is_after-before c n, matching_new c (suc n) ds)

matching-numbered :
    (c n : ℕ) (old new : List Fields)
    → n + length old ≡ c
    → c + length new ≤ seq_limit
    → matching (before c) (numbered n (old ++ new)) ≡ numbered c new
unfolding matching numbered
matching-numbered c n [] new e l = ground (arith, matching_new c n new)
matching-numbered c n (d ∷ old) new e l =
    ground (arith, is_after-before c n, matching-numbered c (suc n) old new)

sort-numbered : (n : ℕ) (ds : List Fields) → sort (numbered n ds) ≡ numbered n ds
unfolding sort numbered
sort-numbered n [] = refl
sort-numbered n (d ∷ []) = refl
sort-numbered n (d ∷ e ∷ ds) = rw (sort-numbered (suc n) (e ∷ ds)) (ground arith)

messages-numbered : (n : ℕ) (ds : List Fields) → messages (numbered n ds) ≡ ds
unfolding numbered
messages-numbered n [] = refl
messages-numbered n (d ∷ ds) = ap (λ l. d ∷ l) (messages-numbered (suc n) ds)

last_seq-numbered :
    (c n : ℕ) (ds : List Fields) → last_seq (before n) (numbered n ds) ≡ before (n + length ds)
unfolding last_seq numbered before
last_seq-numbered c n [] = ground arith
last_seq-numbered c n (d ∷ ds) = ground (arith, last_seq-numbered c (suc n) ds)

-- A mailbox whose first messages, `old`, were polled and whose other messages, `new`, wait.
record IsQueue (box : Mailbox) (old new : List Fields) : Type 0 where
  files_eq : box.files ≡ numbered 0 (old ++ new)
  cursor_eq : box.cursor ≡ before (length old)
  claims_eq : (n : ℕ) → claimed box.claims n ≡ ltb n (length (old ++ new))

empty-IsQueue : IsQueue empty [] []
unfolding numbered before claimed
empty-IsQueue = record { files_eq = refl; cursor_eq = refl; claims_eq = λ n. ground arith }

next_seq-queue :
    (box : Mailbox) (old new : List Fields)
    → IsQueue box old new
    → next_seq box ≡ some (length (old ++ new))
next_seq-queue box old new q =
    let (n, e, l) = next_seq-IsLeastFree box in
    let below : ltb n (length (old ++ new)) ≡ false = sym (q.claims_eq n) ∙ l.free in
    let same_n : n ≡ length (old ++ new) = elim (dec_lt (length (old ++ new)) n) [
      | yes p ↦ absurd (
          let t : ltb (length (old ++ new)) (length (old ++ new)) ≡ true =
            sym (q.claims_eq (length (old ++ new)))
            ∙ l.least (length (old ++ new)) (omega arith) p in
          ground arith)
      | no p ↦ ground arith
    ] in
    rw (← same_n) e

put-IsQueue :
    (stores : Fields → Bool) (d : Fields) (box : Mailbox) (old new : List Fields)
    → stores d ≡ true
    → IsQueue box old new
    → IsQueue (put_box stores d box).1 old (new ++ d ∷ [])
unfolding put_box claimed claim publish numbered
put-IsQueue stores d box old new s q =
    rw (next_seq-queue box old new q, s)
      (record {
        files_eq =
            rw
              (
                q.files_eq,
                ← append_assoc old new (d ∷ []),
                numbered-append 0 (old ++ new) (d ∷ []),
                numbered,
              )
              (ground arith);
        cursor_eq = q.cursor_eq;
        claims_eq = λ n.
            rw (← append_assoc old new (d ∷ []), length-append (old ++ new) (d ∷ []), q.claims_eq n)
              (ground arith);
      })

pending-queue :
    (box : Mailbox) (old new : List Fields)
    → length (old ++ new) ≤ seq_limit
    → IsQueue box old new
    → pending box ≡ numbered (length old) new
unfolding pending
pending-queue box old new h q =
    rw
      (
        q.cursor_eq,
        q.files_eq,
        matching-numbered (length old) 0 old new (omega arith)
            (omega (arith, length-append old new)),
      )
      (sort-numbered (length old) new)

poll-IsQueue :
    (box : Mailbox) (old new : List Fields)
    → length (old ++ new) ≤ seq_limit
    → IsQueue box old new
    → ((poll_box box).0 ≡ new) × IsQueue (poll_box box).1 (old ++ new) []
unfolding poll_box
poll-IsQueue box old new h q = (
  rw (pending-queue box old new h q) (messages-numbered (length old) new),
  record {
    files_eq = rw append-nil q.files_eq;
    cursor_eq =
        rw (pending-queue box old new h q, q.cursor_eq, length-append old new)
          (last_seq-numbered 0 (length old) new);
    claims_eq = rw append-nil q.claims_eq;
  },
)

run-queue :
    (stores : Fields → Bool)
    → ((d : Fields) → stores d ≡ true)
    → (calls : List Call) (box : Mailbox) (old new : List Fields)
    → length (old ++ new) + puts calls ≤ seq_limit
    → IsQueue box old new
    → run_box stores calls box ≡ run_queue calls new
unfolding run_box run_queue
run-queue stores s [] box old new h q = refl
run-queue stores s (put_call d ∷ calls) box old new h q =
    run-queue stores s calls (put_box stores d box).1 old (new ++ d ∷ [])
      (omega (
        arith,
        length-append old new,
        length-append new (d ∷ []),
        length-append old (new ++ d ∷ []),
      ))
      (put-IsQueue stores d box old new (s d) q)
run-queue stores s (poll_call ∷ calls) box old new h q =
    let (e, q') = poll-IsQueue box old new (omega arith) q in
    rw e (
      ap (λ l. new ∷ l)
        (run-queue stores s calls (poll_box box).1 (old ++ new) []
          (omega (arith, length-append (old ++ new) [])) q'))

-- Any sequence of puts and polls on a new mailbox, where every put stores its message and at most
-- 10^12 of them are made, is answered as a queue answers it: each poll returns the messages put
-- since the poll before it, in the order of the puts, each of them once.
pub run_box-run_queue :
    (stores : Fields → Bool)
    → ((d : Fields) → stores d ≡ true)
    → (calls : List Call) → puts calls ≤ seq_limit
    → run_box stores calls empty ≡ run_queue calls []
run_box-run_queue stores s calls h =
    run-queue stores s calls empty [] [] (omega arith) empty-IsQueue
