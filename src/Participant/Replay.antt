-- ===== src/Participant/Replay.antt =====
-- participant.py: an envelope is honoured once.
use a2a_compliance.Prelude.{refl}
use Prim.Native.Char.{Char}
use a2a_compliance.Participant.{Maker, verify_envelope, envelope_rejection, settle, Rejection}
use a2a_compliance.Participant.Checkpoint.{
  World, dispatch, handle, handle_parsed, handle_message, drain,
}
use a2a_compliance.Participant.Laws.{envelope_rejection-IsAuthentic}
use a2a_compliance.Participant.Stopping.{
  after_round-nonces, after_round-state, verify_envelope-settle,
}
use a2a_compliance.Nonces.{NonceStore, IsNonceStore}
use a2a_compliance.Host.{Host}
use a2a_compliance.Prelude.{
  Bool, ℕ, ◌≡◌, List, some, Option, none, true, ◌∷◌, Option-cases, suc, Bool-cases, inl, [], inr,
}
use a2a_compliance.Json.{Fields, Value, get}
use a2a_compliance.Wire.Trust.{TrustStore}
use a2a_compliance.Envelope.{Stamp, Message}
use a2a_compliance.Envelope.Parser.{from_wire}

module _ (host : Host) (maker : Maker) {S : Type 0} (store : NonceStore S) (isalnum : Char → Bool)
    (stores : Fields → Bool) where
  module _ (law : IsNonceStore store) (trust : TrustStore)
      (auth : maker.trust_store ≡ some trust) where
    settle-seen :
        (d : Fields) (msg : Message) (s : S) (r n : Value) (o : Option Rejection)
        → store.seen s r n ≡ true
        → store.seen (settle host maker store d msg s o).1 r n ≡ true
    unfolding settle
    settle-seen d msg s r n none h = law.seen_kept s msg.from_party.actor (get "nonce" d) r n h
    settle-seen d msg s r n (some x) h = h

    handle_parsed-seen :
        (stamp : Stamp) (d : Fields) (m : Option Message) (w : World S) (r n : Value)
        → store.seen w.nonces r n ≡ true
        → store.seen (handle_parsed host maker store isalnum stores stamp d m w).world.nonces r n
          ≡ true
    unfolding handle_parsed handle_message
    handle_parsed-seen stamp d none w r n h = h
    handle_parsed-seen stamp d (some msg) w r n h =
        let out = verify_envelope host maker store d msg w.nonces in
        rw
          (
            after_round-nonces host maker store isalnum stores out.1 w
                (dispatch maker stamp msg out.0 w.state),
            verify_envelope-settle host maker store isalnum stores trust auth d msg w.nonces,
          )
          (settle-seen d msg w.nonces r n
            (envelope_rejection host maker trust d msg
              (store.seen w.nonces msg.from_party.actor (get "nonce" d)))
            h)

    drain-seen :
        (stamps : ℕ → Stamp) (k : ℕ) (ds : List Fields) (w : World S) (r n : Value)
        → store.seen w.nonces r n ≡ true
        → store.seen (drain host maker store isalnum stores stamps k ds w).world.nonces r n ≡ true
    unfolding drain handle
    drain-seen stamps k [] w r n h = h
    drain-seen stamps k (d ∷ ds) w r n h =
        let h' = handle_parsed-seen (stamps k) d (from_wire d) w r n h in
        elim (Bool-cases (handle host maker store isalnum stores (stamps k) d w).complete) [
          | inl e ↦ rw e (
              drain-seen stamps (suc k) ds
                (handle host maker store isalnum stores (stamps k) d w).world r n h')
          | inr e ↦ rw e h'
        ]

    -- A seen nonce is refused.
    seen_refused :
        (d : Fields) (msg : Message) (s : S)
        → store.seen s msg.from_party.actor (get "nonce" d) ≡ true
        → (r : Rejection) × (envelope_rejection host maker trust d msg
              (store.seen s msg.from_party.actor (get "nonce" d))
            ≡ some r)
    seen_refused d msg s h =
        elim (Option-cases (
          envelope_rejection host maker trust d msg
            (store.seen s msg.from_party.actor (get "nonce" d)))) [
              | inl e ↦
                  (let a =
                      envelope_rejection-IsAuthentic host maker d msg
                        (store.seen s msg.from_party.actor (get "nonce" d)) trust e in
                    let f = a.fresh in cc)
              | inr x ↦ x
            ]

    refused_state :
        (stamp : Stamp) (d : Fields) (msg : Message) (w : World S)
        → from_wire d ≡ some msg
        → store.seen w.nonces msg.from_party.actor (get "nonce" d) ≡ true
        → (handle host maker store isalnum stores stamp d w).world.state ≡ w.state
    unfolding handle handle_parsed handle_message settle dispatch
    refused_state stamp d msg w p h =
        let (r, e) = seen_refused d msg w.nonces h in
        let out = verify_envelope host maker store d msg w.nonces in
        rw p (
          rw
            (
              after_round-state host maker store isalnum stores out.1 w
                  (dispatch maker stamp msg out.0 w.state),
              verify_envelope-settle host maker store isalnum stores trust auth d msg w.nonces,
              e,
            )
            refl)

    honoured_seen :
        (stamp : Stamp) (d : Fields) (msg : Message) (w : World S)
        → from_wire d ≡ some msg
        → envelope_rejection host maker trust d msg
            (store.seen w.nonces msg.from_party.actor (get "nonce" d))
          ≡ none
        → store.seen
            (handle host maker store isalnum stores stamp d w).world.nonces
            msg.from_party.actor
            (get "nonce" d)
          ≡ true
    unfolding handle handle_parsed handle_message settle
    honoured_seen stamp d msg w p e =
        let out = verify_envelope host maker store d msg w.nonces in
        rw p (
          rw
            (
              after_round-nonces host maker store isalnum stores out.1 w
                  (dispatch maker stamp msg out.0 w.state),
              verify_envelope-settle host maker store isalnum stores trust auth d msg w.nonces,
              e,
            )
            (law.seen-record_nonce w.nonces msg.from_party.actor (get "nonce" d)))

    -- In authenticated mode, over any store that keeps the promises of the port: once an envelope
    -- has passed every check, and whatever else is drained after it, an envelope of the same sender
    -- with the same nonce leaves the maker's state as it is.
    pub handle-once :
        (stamp stamp' : Stamp) (stamps : ℕ → Stamp) (d d' : Fields) (ds : List Fields)
        (msg msg' : Message) (w : World S)
        → from_wire d ≡ some msg
        → from_wire d' ≡ some msg'
        → msg'.from_party.actor ≡ msg.from_party.actor
        → get "nonce" d' ≡ get "nonce" d
        → envelope_rejection host maker trust d msg
            (store.seen w.nonces msg.from_party.actor (get "nonce" d))
          ≡ none
        → let later : World S =
            (drain host maker store isalnum stores stamps 0 ds
              (handle host maker store isalnum stores stamp d w).world).world in
          (handle host maker store isalnum stores stamp' d' later).world.state ≡ later.state
    handle-once stamp stamp' stamps d d' ds msg msg' w p p' a n e =
        let first = (handle host maker store isalnum stores stamp d w).world in
        let later = (drain host maker store isalnum stores stamps 0 ds first).world in
        refused_state stamp' d' msg' later p' (
          rw (a, n)
            (drain-seen stamps 0 ds first msg.from_party.actor (get "nonce" d)
              (honoured_seen stamp d msg w p e)))
