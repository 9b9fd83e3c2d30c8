-- ===== src/Participant/Halting.antt =====
-- participant.py: what stops a maker, and that nothing makes a stopped maker continue.
use a2a_compliance.Prelude.{
  refl, Option, ◌≡◌, String, some, true, none, ◌⊎◌, ap, inr, ◌∙◌, sym, inl,
}
use a2a_compliance.Verbs.{Verb}
use a2a_compliance.Participant.Handlers.{
  issue, hold_with, conditions_of, let_go, accept_by, accept_directive, halt, report_state,
}
use a2a_compliance.Participant.Checkpoint.{
  Round, raised, silent, answered, dispatch, by_verb, labelled, raise_or,
}
use a2a_compliance.Participant.{
  MakerState, Maker, EnvelopeVerdict, refused, advisory, authenticated,
}
use a2a_compliance.Envelope.{Stamp, Message}
use a2a_compliance.Json.{Fields, Items, as_dict}

abbrev pub left_by : Round MakerState → MakerState
left_by (raised s) = s
left_by (silent s) = s
left_by (answered resp s) = s

module _ (maker : Maker) (stamp : Stamp) (msg : Message) where
  issue-is_halted :
      (s : MakerState) (b : Option Fields) → (issue maker stamp msg s b).1.is_halted ≡ s.is_halted
  unfolding issue
  issue-is_halted s none = refl
  issue-is_halted s (some b) = refl

  hold_with-is_halted :
      (s : MakerState) (c : Option Items)
      → (hold_with maker stamp msg s c).1.is_halted ≡ s.is_halted
  unfolding hold_with
  hold_with-is_halted s none = refl
  hold_with-is_halted s (some c) = refl

  accept_by-is_halted :
      (v : Verb) (s : MakerState) → (accept_by maker stamp msg v s).1.is_halted ≡ s.is_halted
  unfolding accept_by let_go
  accept_by-is_halted Verb.issue_directive s = issue-is_halted s (as_dict msg.body)
  accept_by-is_halted Verb.hold s = hold_with-is_halted s (conditions_of maker (as_dict msg.body))
  accept_by-is_halted Verb.resume s = refl
  accept_by-is_halted Verb.query_state s = refl
  accept_by-is_halted Verb.halt s = refl
  accept_by-is_halted Verb.report_state s = refl
  accept_by-is_halted Verb.ack s = refl
  accept_by-is_halted Verb.escalate s = refl

  left_by-raise_or : (r : Option Message × MakerState) → left_by (raise_or r) ≡ r.1
  left_by-raise_or (none, s) = refl
  left_by-raise_or (some m, s) = refl

  accept-is_halted :
      (s : MakerState)
      → (left_by (raise_or (accept_directive maker stamp msg s))).is_halted ≡ s.is_halted
  unfolding accept_directive
  accept-is_halted s =
      rw (left_by-raise_or (accept_by maker stamp msg msg.verb s)) (accept_by-is_halted msg.verb s)

  pub by_verb-is_halted :
      (v : Verb) (s : MakerState)
      → (left_by (by_verb maker stamp msg v s)).is_halted ≡ true
      → (v ≡ Verb.halt) ⊎ (s.is_halted ≡ true)
  unfolding by_verb
  by_verb-is_halted Verb.query_state s h = inr (
      sym
        (ap (λ (t : MakerState). t.is_halted) (left_by-raise_or (report_state maker stamp msg, s)))
      ∙ h)
  by_verb-is_halted Verb.issue_directive s h = inr (sym (accept-is_halted s) ∙ h)
  by_verb-is_halted Verb.hold s h = inr (sym (accept-is_halted s) ∙ h)
  by_verb-is_halted Verb.resume s h = inr (sym (accept-is_halted s) ∙ h)
  by_verb-is_halted Verb.halt s h = inl refl
  by_verb-is_halted Verb.report_state s h = inr h
  by_verb-is_halted Verb.ack s h = inr h
  by_verb-is_halted Verb.escalate s h = inr h

  by_verb-stays_halted :
      (v : Verb) (s : MakerState)
      → s.is_halted ≡ true
      → (left_by (by_verb maker stamp msg v s)).is_halted ≡ true
  unfolding by_verb halt
  by_verb-stays_halted Verb.query_state s h =
      ap (λ (t : MakerState). t.is_halted) (left_by-raise_or (report_state maker stamp msg, s)) ∙ h
  by_verb-stays_halted Verb.issue_directive s h = accept-is_halted s ∙ h
  by_verb-stays_halted Verb.hold s h = accept-is_halted s ∙ h
  by_verb-stays_halted Verb.resume s h = accept-is_halted s ∙ h
  by_verb-stays_halted Verb.halt s h = refl
  by_verb-stays_halted Verb.report_state s h = h
  by_verb-stays_halted Verb.ack s h = h
  by_verb-stays_halted Verb.escalate s h = h

  pub left_by-labelled :
      (mode : String) (r : Round MakerState) → left_by (labelled maker mode r) ≡ left_by r
  unfolding labelled
  left_by-labelled mode (raised s) = refl
  left_by-labelled mode (silent s) = refl
  left_by-labelled mode (answered resp s) = refl

  pub dispatch-stays_halted :
      (v : EnvelopeVerdict) (s : MakerState)
      → s.is_halted ≡ true
      → (left_by (dispatch maker stamp msg v s)).is_halted ≡ true
  unfolding dispatch
  dispatch-stays_halted (refused r) s h = h
  dispatch-stays_halted advisory s h =
      rw (left_by-labelled "advisory" (by_verb maker stamp msg msg.verb s))
        (by_verb-stays_halted msg.verb s h)
  dispatch-stays_halted authenticated s h =
      rw (left_by-labelled "authenticated" (by_verb maker stamp msg msg.verb s))
        (by_verb-stays_halted msg.verb s h)
