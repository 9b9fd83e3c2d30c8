-- ===== src/Participant/Stopping.antt =====
-- participant.py: the stop signal over whole checkpoints.
use a2a_compliance.Participant.Handlers.{halt}
use Prim.Native.Char.{Char}
use a2a_compliance.Participant.{
  Maker, MakerState, verify_envelope, envelope_rejection, should_continue, settle, Rejection,
}
use a2a_compliance.Participant.Checkpoint.{
  World, Round, raised, silent, answered, dispatch, by_verb, after_round, handle, handle_parsed,
  handle_message, drain, checkpoint, post,
}
use a2a_compliance.Participant.Laws.{IsAuthentic, envelope_rejection-IsAuthentic}
use a2a_compliance.Participant.Halting.{
  left_by, by_verb-is_halted, dispatch-stays_halted, left_by-labelled,
}
use a2a_compliance.Host.{Host}
use a2a_compliance.Nonces.{NonceStore}
use a2a_compliance.Prelude.{
  Bool, ℕ, ◌≡◌, Option, List, true, false, ◌∷◌, some, none, Bool-cases, ◌⊎◌, inl, arith, suc,
  Option-cases, inr, refl, [], not-eq-false, ap, ◌∙◌,
}
use a2a_compliance.Json.{Fields, get}
use a2a_compliance.Envelope.{Stamp, Message}
use a2a_compliance.Envelope.Parser.{from_wire}
use a2a_compliance.Wire.Trust.{TrustStore}
use a2a_compliance.Inbox.{poll}
use a2a_compliance.Verbs.{Verb}

module _ (host : Host) (maker : Maker) {S : Type 0} (store : NonceStore S) (isalnum : Char → Bool)
    (stores : Fields → Bool) where
  pub after_round-state :
      (s : S) (w : World S) (r : Round MakerState)
      → (after_round host maker store isalnum stores s w r).world.state ≡ left_by r
  unfolding after_round post
  after_round-state s w (raised t) = refl
  after_round-state s w (silent t) = refl
  after_round-state s w (answered resp t) = refl

  pub after_round-nonces :
      (s : S) (w : World S) (r : Round MakerState)
      → (after_round host maker store isalnum stores s w r).world.nonces ≡ s
  unfolding after_round post
  after_round-nonces s w (raised t) = refl
  after_round-nonces s w (silent t) = refl
  after_round-nonces s w (answered resp t) = refl

  handle_parsed-stays_halted :
      (stamp : Stamp) (d : Fields) (m : Option Message) (w : World S)
      → w.state.is_halted ≡ true
      → (handle_parsed host maker store isalnum stores stamp d m w).world.state.is_halted ≡ true
  unfolding handle_parsed handle_message
  handle_parsed-stays_halted stamp d none w h = h
  handle_parsed-stays_halted stamp d (some msg) w h =
      let (verdict, nonces) = verify_envelope host maker store d msg w.nonces in
      rw (after_round-state nonces w (dispatch maker stamp msg verdict w.state))
        (dispatch-stays_halted maker stamp msg verdict w.state h)

  drain-stays_halted :
      (stamps : ℕ → Stamp) (n : ℕ) (ds : List Fields) (w : World S)
      → w.state.is_halted ≡ true
      → (drain host maker store isalnum stores stamps n ds w).world.state.is_halted ≡ true
  unfolding drain handle
  drain-stays_halted stamps n [] w h = h
  drain-stays_halted stamps n (d ∷ ds) w h =
      let h' = handle_parsed-stays_halted (stamps n) d (from_wire d) w h in
      elim (Bool-cases (handle host maker store isalnum stores (stamps n) d w).complete) [
        | inl e ↦ rw e (
            drain-stays_halted stamps (suc n) ds
              (handle host maker store isalnum stores (stamps n) d w).world h')
        | inr e ↦ rw e h'
      ]

  -- A maker that was told to stop is never told to continue by a later checkpoint.
  pub checkpoint-should_continue :
      (stamps : ℕ → Stamp) (w : World S)
      → should_continue w.state ≡ false
      → should_continue (checkpoint host maker store isalnum stores stamps w).world.state ≡ false
  unfolding should_continue checkpoint
  checkpoint-should_continue stamps w h =
      let (wires, inbox) = poll isalnum stores maker.session_id w.inbox in
      let before : w.state.is_halted ≡ true = ground (arith, h) in
      rw (drain-stays_halted stamps 0 wires (record w { inbox = inbox }) before) refl

  module _ (trust : TrustStore) where
    -- The envelope is a halt that passes every check at this state of the nonce store.
    pub record IsHaltOrder (d : Fields) (s : S) : Type 0 where
      pub msg : Message
      pub parsed : from_wire d ≡ some msg
      pub is_halt : msg.verb ≡ Verb.halt
      pub authentic :
          IsAuthentic host maker trust d msg (store.seen s msg.from_party.actor (get "nonce" d))

    -- One of the envelopes is such a halt when its turn comes.
    abbrev pub HasHaltOrder : (ℕ → Stamp) → ℕ → List Fields → World S → Type 0
    HasHaltOrder stamps n [] w = ⊥
    HasHaltOrder stamps n (d ∷ ds) w =
        IsHaltOrder d w.nonces
        ⊎ HasHaltOrder stamps (suc n) ds
            (handle host maker store isalnum stores (stamps n) d w).world

    settled :
        (stamp : Stamp) (d : Fields) (msg : Message) (s : S) (st : MakerState)
        (o : Option Rejection)
        → (left_by (dispatch maker stamp msg (settle host maker store d msg s o).0 st)).is_halted
          ≡ true
        → (st.is_halted ≡ true) ⊎ ((o ≡ none) × (msg.verb ≡ Verb.halt))
    unfolding settle dispatch
    settled stamp d msg s st (some r) h = inl h
    settled stamp d msg s st none h =
        elim (by_verb-is_halted maker stamp msg msg.verb st (
          rw
            (left_by-labelled maker stamp msg "authenticated" (by_verb maker stamp msg msg.verb st))
            at h)) [ inl v ↦ inr (refl, v) | inr b ↦ inl b ]

    pub verify_envelope-settle :
        maker.trust_store ≡ some trust
        → (d : Fields) (msg : Message) (s : S)
        → verify_envelope host maker store d msg s
          ≡ settle host maker store d msg s (
              envelope_rejection host maker trust d msg
                (store.seen s msg.from_party.actor (get "nonce" d)))
    unfolding verify_envelope
    verify_envelope-settle e d msg s = rw e refl

    handle_message-halted :
        maker.trust_store ≡ some trust
        → (stamp : Stamp) (d : Fields) (msg : Message) (w : World S) → from_wire d ≡ some msg
        → (handle_message host maker store isalnum stores stamp d msg w).world.state.is_halted
          ≡ true
        → (w.state.is_halted ≡ true) ⊎ IsHaltOrder d w.nonces
    unfolding handle_message
    handle_message-halted e stamp d msg w p h =
        let seen = store.seen w.nonces msg.from_party.actor (get "nonce" d) in
        let o = envelope_rejection host maker trust d msg seen in
        let out = verify_envelope host maker store d msg w.nonces in
        let left : (left_by (dispatch maker stamp msg out.0 w.state)).is_halted ≡ true =
          rw (after_round-state out.1 w (dispatch maker stamp msg out.0 w.state)) at h in
        elim (settled stamp d msg w.nonces w.state o
          (rw (verify_envelope-settle e d msg w.nonces) at left)) [
            | inl b ↦ inl b
            | inr (n, v) ↦ inr (record {
              msg = msg;
              parsed = p;
              is_halt = v;
              authentic = envelope_rejection-IsAuthentic host maker d msg seen trust n;
            })
          ]

    handle-halted :
        maker.trust_store ≡ some trust
        → (stamp : Stamp) (d : Fields) (w : World S)
        → (handle host maker store isalnum stores stamp d w).world.state.is_halted ≡ true
        → (w.state.is_halted ≡ true) ⊎ IsHaltOrder d w.nonces
    unfolding handle handle_parsed
    handle-halted e stamp d w h = elim (Option-cases (from_wire d)) [
      | inl p ↦ inl (rw p at h)
      | inr (msg, p) ↦ handle_message-halted e stamp d msg w p (rw p at h)
    ]

    drain-halted :
        maker.trust_store ≡ some trust
        → (stamps : ℕ → Stamp) (n : ℕ) (ds : List Fields) (w : World S)
        → (drain host maker store isalnum stores stamps n ds w).world.state.is_halted ≡ true
        → (w.state.is_halted ≡ true) ⊎ HasHaltOrder stamps n ds w
    unfolding drain
    drain-halted e stamps n [] w h = inl h
    drain-halted e stamps n (d ∷ ds) w h =
        let first = handle host maker store isalnum stores (stamps n) d w in
        let here : first.world.state.is_halted ≡ true
            → (w.state.is_halted ≡ true) ⊎ HasHaltOrder stamps n (d ∷ ds) w =
          λ k. elim (handle-halted e (stamps n) d w k) [ inl b ↦ inl b | inr o ↦ inr (inl o) ] in
        elim (Bool-cases first.complete) [
          | inr stop ↦ here (rw stop at h)
          | inl go ↦ elim (drain-halted e stamps (suc n) ds first.world (rw go at h)) [
            | inl b ↦ here b
            | inr later ↦ inr (inr later)
          ]
        ]

    -- In authenticated mode a checkpoint stops a maker that was not stopped only if one of the
    -- envelopes that it polled is a halt that, when its turn comes, is signed by a key that the
    -- trust store binds to control envelopes, to the sender's role and to the sender itself, whose
    -- signature verifies, which has not expired, whose nonce was not seen, and whose sender's role
    -- may halt this maker.
    pub checkpoint-HasHaltOrder :
        maker.trust_store ≡ some trust
        → (stamps : ℕ → Stamp) (w : World S) → should_continue w.state ≡ true
        → should_continue (checkpoint host maker store isalnum stores stamps w).world.state ≡ false
        → HasHaltOrder stamps 0
            (poll isalnum stores maker.session_id w.inbox).0
            (record w { inbox = (poll isalnum stores maker.session_id w.inbox).1 })
    unfolding checkpoint should_continue
    checkpoint-HasHaltOrder e stamps w running stopped =
        let polled = poll isalnum stores maker.session_id w.inbox in
        let start : World S = record w { inbox = polled.1 } in
        elim (drain-halted e stamps 0 polled.0 start (not-eq-false _ stopped)) [
          | inl b ↦ (let c = rw b at running in cc)
          | inr o ↦ o
        ]

    -- An accepted halt stops the maker.
    pub handle-halts :
        maker.trust_store ≡ some trust
        → (stamp : Stamp) (d : Fields) (msg : Message) (w : World S) → from_wire d ≡ some msg
        → msg.verb ≡ Verb.halt
        → envelope_rejection host maker trust d msg
            (store.seen w.nonces msg.from_party.actor (get "nonce" d))
          ≡ none
        → (handle host maker store isalnum stores stamp d w).world.state.is_halted ≡ true
    unfolding handle handle_parsed handle_message settle dispatch by_verb halt
    handle-halts e stamp d msg w p v n =
        let out = verify_envelope host maker store d msg w.nonces in
        let told : (left_by (by_verb maker stamp msg msg.verb w.state)).is_halted ≡ true =
          ap (λ (u : Verb). (left_by (by_verb maker stamp msg u w.state)).is_halted) v in
        rw p (
          rw
            (
              after_round-state out.1 w (dispatch maker stamp msg out.0 w.state),
              verify_envelope-settle e d msg w.nonces,
              n,
            )
            (ap (λ (s : MakerState). s.is_halted)
                (left_by-labelled maker stamp msg "authenticated"
                  (by_verb maker stamp msg msg.verb w.state))
              ∙ told))
