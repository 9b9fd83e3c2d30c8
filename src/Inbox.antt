-- ===== src/Inbox.antt =====
-- inbox.py: a mailbox is a directory with a claim file for each sequence number, a file for each
-- published message, and a cursor. Another process may act between the claim of a number and the
-- publication under it, so they are two operations.
pub mod Laws
pub mod Queue
pub mod Late
pub mod Drained
pub mod Tests
use Prim.Native.Char.{Char}
use a2a_compliance.Prelude.{
  ℕ, List, [], String, Option, none, Bool, suc, ◌∷◌, ◌++◌, map, false, if◌then◌else◌, length, some,
  true, leb, zero, ltb, ◌&&◌, ◌||◌, ◌==◌,
}
use a2a_compliance.Json.{Fields}
use a2a_compliance.Nonces.File.{safe_component}

-- A file `{seq:012d}-{id}.json`: its number and the message that it holds.
abbrev pub Entry : Type 0
Entry = ℕ × Fields

-- `cursor` is none for the -1 of a missing or unreadable `.cursor`.
pub record Mailbox : Type 0 where
  pub claims : List ℕ
  pub files : List Entry
  pub cursor : Option ℕ

abbrev pub empty : Mailbox
empty = record { claims = []; files = []; cursor = none }

-- The mailboxes under the root, by the name of their directory.
abbrev pub FileInbox : Type 0
FileInbox = String → Mailbox

-- Twelve digits: the names that the pattern of `poll` and `peek` matches.
abbrev pub seq_limit : ℕ
seq_limit = 1000000000000

-- whether the claim file of n exists
unfoldable pub claimed : List ℕ → ℕ → Bool
claimed [] n = false
claimed (c ∷ cs) n = (leb c n && leb n c) || claimed cs n

-- The loop of `_next_seq`: an exclusive creation that fails moves on to the next number.
unfoldable pub first_free : ℕ → ℕ → List ℕ → Option ℕ
first_free zero n claims = none
first_free (suc fuel) n claims =
    let rest = first_free fuel (suc n) claims in if claimed claims n then rest else some n

unfoldable pub next_seq : Mailbox → Option ℕ
next_seq box = first_free (suc (length box.claims)) 0 box.claims

unfoldable pub claim : ℕ → Mailbox → Mailbox
claim n box = record box { claims = n ∷ box.claims }

-- `os.replace(tmp, final)`
unfoldable pub publish : ℕ → Fields → Mailbox → Mailbox
publish n message box = record box { files = box.files ++ (n, message) ∷ [] }

-- `put` on one mailbox with no other process in between. `stores` says whether the message can be
-- written and its id be part of a file name; where it cannot, the claim stays and `put` raises.
put_claimed : (Fields → Bool) → Fields → Mailbox → Option ℕ → Option ℕ × Mailbox
unfolding claim publish
put_claimed stores message box none = (none, box)
put_claimed stores message box (some n) =
    if stores message then (some n, publish n message (claim n box)) else (none, claim n box)

unfoldable pub put_box : (Fields → Bool) → Fields → Mailbox → Option ℕ × Mailbox
unfolding put_claimed
put_box stores message box = put_claimed stores message box (next_seq box)

-- `sort(key=lambda t: t[0])`: stable
unfoldable pub insert : Entry → List Entry → List Entry
insert e [] = e ∷ []
insert (n, d) ((m, c) ∷ l) =
    let rest = insert (n, d) l in if ltb m n then (m, c) ∷ rest else (n, d) ∷ (m, c) ∷ l

unfoldable pub sort : List Entry → List Entry
unfolding insert
sort [] = []
sort (e ∷ l) = insert e (sort l)

abbrev pub is_after : Option ℕ → ℕ → Bool
is_after none n = true
is_after (some c) n = ltb c n

-- The files that the pattern matches, with a number behind the cursor.
unfoldable pub matching : Option ℕ → List Entry → List Entry
matching cursor [] = []
matching cursor ((n, d) ∷ l) =
    let rest = matching cursor l in
    if ltb n seq_limit && is_after cursor n then (n, d) ∷ rest else rest

-- the cursor that `poll` leaves: `pending[-1][0]`, or the old one
unfoldable pub last_seq : Option ℕ → List Entry → Option ℕ
last_seq cursor [] = cursor
last_seq cursor ((n, d) ∷ l) = last_seq (some n) l

abbrev pub messages : List Entry → List Fields
messages l = map (λ e. e.1) l

unfoldable pub pending : Mailbox → List Entry
unfolding sort matching
pending box = sort (matching box.cursor box.files)

unfoldable pub poll_box : Mailbox → List Fields × Mailbox
unfolding pending last_seq
poll_box box = (messages (pending box), record box { cursor = last_seq box.cursor (pending box) })

unfoldable pub peek_box : Mailbox → List Fields
unfolding sort matching
peek_box box = messages (sort (matching none box.files))

-- The methods of `FileInbox`, by the name of the directory of an actor.
module _ (isalnum : Char → Bool) (stores : Fields → Bool) where
  -- `_mailbox`
  unfoldable pub mailbox : String → String
  mailbox actor = safe_component isalnum actor

  abbrev at_box : String → Mailbox → FileInbox → FileInbox
  at_box name box inbox = λ other. if other == name then box else inbox other

  unfoldable pub put : String → Fields → FileInbox → Option ℕ × FileInbox
  unfolding mailbox put_box
  put to_actor message inbox =
      let (seq, box) = put_box stores message (inbox (mailbox to_actor)) in
      (seq, at_box (mailbox to_actor) box inbox)

  unfoldable pub poll : String → FileInbox → List Fields × FileInbox
  unfolding mailbox poll_box
  poll actor inbox =
      let (found, box) = poll_box (inbox (mailbox actor)) in
      (found, at_box (mailbox actor) box inbox)

  unfoldable pub peek : String → FileInbox → List Fields
  unfolding mailbox peek_box
  peek actor inbox = peek_box (inbox (mailbox actor))
