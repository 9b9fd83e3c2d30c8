-- ===== src/Participant/Malformed.antt =====
-- participant.py: what an envelope that `from_wire` raises on does to the batch that it is in.
use Prim.Native.Char.{Char}
use a2a_compliance.Inbox.{put, Mailbox}
use a2a_compliance.Participant.Checkpoint.{
  World, Round, raised, dispatch, silent, answered, Outcome,
}
use a2a_compliance.Prelude.{
  refl, Bool, String, ◌==◌, ℕ, List, ◌≡◌, false, eq_refl, Option, some, ◌∷◌, ◌++◌, none, Bool-cases,
  suc, inl, [], inr, ◌∙◌, ap,
}
use a2a_compliance.Host.{Host}
use a2a_compliance.Participant.{Maker, MakerState, verify_envelope}
use a2a_compliance.Nonces.{NonceStore}
use a2a_compliance.Json.{Fields}
use a2a_compliance.Participant.Checkpoint.{
  drain, checkpoint, handle, handle_parsed, post, after_round, handle_message,
}
use a2a_compliance.Inbox.{poll, FileInbox, mailbox, poll_box}
use a2a_compliance.Envelope.{Stamp, Message}
use a2a_compliance.Envelope.Parser.{from_wire}
use a2a_compliance.Inbox.Drained.{pending-poll_box}

stopped : {S : Type 0} (o : Outcome S) → o.complete ≡ false → o ≡ record o { complete = false }
stopped o h = ap (λ c. record o { complete = c }) h

module _ (host : Host) (maker : Maker) {S : Type 0} (store : NonceStore S) (isalnum : Char → Bool)
    (stores : Fields → Bool) where
  drain-malformed :
      (stamps : ℕ → Stamp) (n : ℕ) (before after : List Fields) (d : Fields) (w : World S)
      → from_wire d ≡ none
      → drain host maker store isalnum stores stamps n (before ++ d ∷ after) w
        ≡ record (drain host maker store isalnum stores stamps n before w) { complete = false }
  unfolding drain handle handle_parsed
  drain-malformed stamps n [] after d w h = rw h refl
  drain-malformed stamps n (b ∷ before) after d w h =
      let first = handle host maker store isalnum stores (stamps n) b w in
      let rest = drain-malformed stamps (suc n) before after d first.world h in
      elim (Bool-cases first.complete) [
        | inl e ↦ rw (rest, e) refl
        | inr e ↦ rw e (stopped first e)
      ]

  -- A box that is not the mailbox of the compliance actor.
  module _ (name : String)
      (apart : (name == mailbox isalnum stores maker.compliance_actor) ≡ false) where
    post-inbox :
        (resp : Message) (w : World S)
        → (post host maker store isalnum stores resp w).1.inbox name ≡ w.inbox name
    unfolding post put
    post-inbox resp w = rw apart refl

    after_round-inbox :
        (nonces : S) (w : World S) (r : Round MakerState)
        → (after_round host maker store isalnum stores nonces w r).world.inbox name ≡ w.inbox name
    unfolding after_round
    after_round-inbox nonces w (raised s) = refl
    after_round-inbox nonces w (silent s) = refl
    after_round-inbox nonces w (answered resp s) =
        post-inbox resp (record w { state = s; nonces = nonces })

    handle_parsed-inbox :
        (stamp : Stamp) (d : Fields) (m : Option Message) (w : World S)
        → (handle_parsed host maker store isalnum stores stamp d m w).world.inbox name
          ≡ w.inbox name
    unfolding handle_parsed handle_message
    handle_parsed-inbox stamp d none w = refl
    handle_parsed-inbox stamp d (some msg) w =
        let out = verify_envelope host maker store d msg w.nonces in
        after_round-inbox out.1 w (dispatch maker stamp msg out.0 w.state)

    drain-inbox :
        (stamps : ℕ → Stamp) (n : ℕ) (ds : List Fields) (w : World S)
        → (drain host maker store isalnum stores stamps n ds w).world.inbox name ≡ w.inbox name
    unfolding drain handle
    drain-inbox stamps n [] w = refl
    drain-inbox stamps n (d ∷ ds) w =
        let first = handle host maker store isalnum stores (stamps n) d w in
        let same = handle_parsed-inbox (stamps n) d (from_wire d) w in
        elim (Bool-cases first.complete) [
          | inl e ↦ rw e (drain-inbox stamps (suc n) ds first.world ∙ same)
          | inr e ↦ rw e same
        ]

  -- A poll of an actor's mailbox empties it.
  polled_box :
      (actor : String) (inbox : FileInbox)
      → (poll isalnum stores actor inbox).1 (mailbox isalnum stores actor)
        ≡ (poll_box (inbox (mailbox isalnum stores actor))).1
  unfolding poll
  polled_box actor inbox = rw (eq_refl (mailbox isalnum stores actor)) refl

  nothing_waits :
      (actor : String) (inbox : FileInbox) (box : Mailbox)
      → inbox (mailbox isalnum stores actor) ≡ (poll_box box).1
      → (poll isalnum stores actor inbox).0 ≡ []
  unfolding poll poll_box
  nothing_waits actor inbox box e = rw (e, pending-poll_box box) refl

  -- Where the maker's mailbox is not the compliance actor's, an envelope of the polled batch on
  -- which `from_wire` answers none ends the checkpoint: its outcome is that of the envelopes before
  -- it, with the loop not complete, whatever the envelopes behind it are, and they are not kept for
  -- a later checkpoint, since a poll of the mailbox that is left returns nothing.
  pub checkpoint-malformed :
      (stamps : ℕ → Stamp) (before after : List Fields) (d : Fields) (w : World S)
      → (mailbox isalnum stores maker.session_id == mailbox isalnum stores maker.compliance_actor)
        ≡ false
      → (poll isalnum stores maker.session_id w.inbox).0 ≡ before ++ d ∷ after
      → from_wire d ≡ none
      → let outcome = checkpoint host maker store isalnum stores stamps w in
        let polled = (poll isalnum stores maker.session_id w.inbox).1 in
        (outcome
          ≡ record (drain host maker store isalnum stores stamps 0 before
              (record w { inbox = polled })) { complete = false })
        × ((poll isalnum stores maker.session_id outcome.world.inbox).0 ≡ [])
  unfolding checkpoint
  checkpoint-malformed stamps before after d w apart found h =
      let me = maker.session_id in
      let box = mailbox isalnum stores me in
      let wires = (poll isalnum stores me w.inbox).0 in
      let polled : World S = record w { inbox = (poll isalnum stores me w.inbox).1 } in
      let left = drain host maker store isalnum stores stamps 0 wires polled in
      let outcome : left ≡ record (drain host maker store isalnum stores stamps 0 before polled) {
        complete = false;
      } =
        rw found (drain-malformed stamps 0 before after d polled h) in
      let waits : left.world.inbox box ≡ (poll_box (w.inbox box)).1 =
        drain-inbox box apart stamps 0 wires polled ∙ polled_box me w.inbox in
      (outcome, nothing_waits me left.world.inbox (w.inbox box) waits)
