-- ===== src/Participant/Checkpoint.antt =====
-- participant.py: `checkpoint`, which drains the mailbox and answers each envelope in turn.
use Prim.Native.Char.{Char}
use a2a_compliance.Inbox.{put, poll}
use a2a_compliance.Participant.{
  Maker, MakerState, EnvelopeVerdict, verify_envelope, refused, advisory, authenticated,
}
use a2a_compliance.Participant.Handlers.{accept_directive, report_state, halt, reject, with_mode}
use a2a_compliance.Inbox.{FileInbox}
use a2a_compliance.Envelope.{Message, Stamp, to_wire}
use a2a_compliance.Envelope.Parser.{from_wire}
use a2a_compliance.Prelude.{
  Option, String, List, some, Bool, none, ℕ, [], false, true, if◌then◌else◌, ◌∷◌, is_none, suc, not,
  ◌++◌,
}
use a2a_compliance.Host.{Host}
use a2a_compliance.Verbs.{Verb}
use a2a_compliance.Nonces.{NonceStore}
use a2a_compliance.Json.{Fields}

-- What the loop changes: the maker's state, its nonces, and the mailboxes.
pub record World (S : Type 0) : Type 0 where
  pub state : MakerState
  pub nonces : S
  pub inbox : FileInbox

-- One round: it raises, leaves the envelope unanswered, or answers it.
pub data Round (A : Type 0) : Type 0 where
  raised : A → Round A
  silent : A → Round A
  answered : Message → A → Round A

abbrev pub raise_or : Option Message × MakerState → Round MakerState
raise_or (none, s) = raised s
raise_or (some resp, s) = answered resp s

module _ (maker : Maker) where
  -- The handler of a message that was not rejected.
  unfoldable pub by_verb : Stamp → Message → Verb → MakerState → Round MakerState
  unfolding accept_directive report_state halt
  by_verb stamp msg Verb.query_state s = raise_or (report_state maker stamp msg, s)
  by_verb stamp msg Verb.halt s = let (resp, s') = halt maker stamp msg s in answered resp s'
  by_verb stamp msg Verb.issue_directive s = raise_or (accept_directive maker stamp msg s)
  by_verb stamp msg Verb.hold s = raise_or (accept_directive maker stamp msg s)
  by_verb stamp msg Verb.resume s = raise_or (accept_directive maker stamp msg s)
  by_verb stamp msg verb s = silent s

  unfoldable pub labelled : String → Round MakerState → Round MakerState
  unfolding with_mode
  labelled mode (answered resp s) = answered (with_mode mode resp) s
  labelled mode r = r

  -- The body of the loop behind `_verify_envelope`.
  unfoldable pub dispatch : Stamp → Message → EnvelopeVerdict → MakerState → Round MakerState
  unfolding by_verb labelled reject
  dispatch stamp msg (refused reason) s = answered (reject maker stamp msg reason) s
  dispatch stamp msg advisory s = labelled "advisory" (by_verb stamp msg msg.verb s)
  dispatch stamp msg authenticated s = labelled "authenticated" (by_verb stamp msg msg.verb s)

-- The responses, the world that is left, and whether the loop ran to its end.
pub record Outcome (S : Type 0) : Type 0 where
  pub responses : List Message
  pub world : World S
  pub complete : Bool

module _ (host : Host) (maker : Maker) {S : Type 0} (store : NonceStore S) (isalnum : Char → Bool)
    (stores : Fields → Bool) where
  -- The response is put into the mailbox of the compliance actor, which may raise.
  unfoldable pub post : Message → World S → Option ℕ × World S
  post resp w =
      let (seq, inbox) = put isalnum stores maker.compliance_actor (to_wire resp) w.inbox in
      (seq, record w { inbox = inbox })

  unfoldable pub after_round : S → World S → Round MakerState → Outcome S
  unfolding post
  after_round nonces w (raised s) = record {
    responses = [];
    world = record w { state = s; nonces = nonces };
    complete = false;
  }
  after_round nonces w (silent s) = record {
    responses = [];
    world = record w { state = s; nonces = nonces };
    complete = true;
  }
  after_round nonces w (answered resp s) =
      let (seq, w') = post resp (record w { state = s; nonces = nonces }) in
      record {
        responses = if is_none seq then [] else resp ∷ [];
        world = w';
        complete = not (is_none seq);
      }

  unfoldable pub handle_message : Stamp → Fields → Message → World S → Outcome S
  unfolding after_round
  handle_message stamp d msg w =
      let (verdict, nonces) = verify_envelope host maker store d msg w.nonces in
      after_round nonces w (dispatch maker stamp msg verdict w.state)

  -- One round of the loop. Where `from_wire` raises, nothing is verified.
  unfoldable pub handle_parsed : Stamp → Fields → Option Message → World S → Outcome S
  unfolding handle_message
  handle_parsed stamp d none w = record { responses = []; world = w; complete = false }
  handle_parsed stamp d (some msg) w = handle_message stamp d msg w

  unfoldable pub handle : Stamp → Fields → World S → Outcome S
  unfolding handle_parsed
  handle stamp d w = handle_parsed stamp d (from_wire d) w

  -- The loop; `stamps n` is what the ids and the clock give to the n-th round.
  unfoldable pub drain : (ℕ → Stamp) → ℕ → List Fields → World S → Outcome S
  drain stamps n [] w = record { responses = []; world = w; complete = true }
  drain stamps n (d ∷ ds) w =
      let first = handle (stamps n) d w in
      let rest = drain stamps (suc n) ds first.world in
      if first.complete
      then record rest { responses = first.responses ++ rest.responses }
      else first

  unfoldable pub checkpoint : (ℕ → Stamp) → World S → Outcome S
  unfolding drain
  checkpoint stamps w =
      let (wires, inbox) = poll isalnum stores maker.session_id w.inbox in
      drain stamps 0 wires (record w { inbox = inbox })
