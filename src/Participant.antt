-- ===== src/Participant.antt =====
-- participant.py: a maker that polls its mailbox, verifies each envelope and honours it.
pub mod Handlers
pub mod Checkpoint
pub mod Laws
pub mod Halting
pub mod Stopping
pub mod Replay
pub mod Malformed
pub mod Tests
use mathlib.Core.Option
use a2a_compliance.Prelude.{
  String, Bool, false, Option, not, List, ℕ, [], if◌then◌else◌, some, none, leb, ◌||◌, is_empty,
}
use a2a_compliance.Json.{Value, Items, null, Fields, nil, get, as_str, truthy}
use a2a_compliance.Host.{Host}
use a2a_compliance.Verbs.{Verb}
use a2a_compliance.Wire.Trust.{
  TrustStore, TrustBinding, authorizes_type, authorizes_role, is_identity,
}
use a2a_compliance.Nonces.{NonceStore}
use a2a_compliance.Authority.{
  Roster, AuthorizationReason, is_steer_verb, not_a_compliance_role, not_a_steer_verb, authorize,
}
use a2a_compliance.Envelope.{Message}
use a2a_compliance.Wire.Signing.{SignatureError, verify_signature}
use a2a_compliance.Wire.Checks.{parse_datetime}

abbrev pub envelope_object_type : String
envelope_object_type = "A2AControlMessage"

-- Why `_verify_envelope` rejects, with what the reason prints.
pub data Rejection : Type 0 where
  unsigned_envelope : Rejection
  unknown_key : Value → Rejection
  key_not_for_envelopes : Value → Rejection
  key_not_for_role : Value → Value → Rejection
  key_not_for_sender : Value → Option String → Value → Rejection
  no_cryptography : Rejection
  signature_rejected : List SignatureError → Rejection
  no_expiry : Rejection
  envelope_expired : Rejection
  no_nonce : Rejection
  replayed : Rejection
  not_authorized : AuthorizationReason → Rejection

-- `_EnvelopeVerdict`: an honoured envelope is advisory or authenticated.
pub data EnvelopeVerdict : Type 0 where
  advisory authenticated : EnvelopeVerdict
  refused : Rejection → EnvelopeVerdict

pub data Note : Type 0 where
  applied_directive : Value → Note
  held_note resumed_note halted_note : Note
  not_accept_verb : Verb → Note
  rejection : Rejection → Note

pub record DirectiveRecord : Type 0 where
  pub directive_id : Value
  pub kind : Value
  pub instruction : Value

-- The fields that the maker sets once. `cryptography` says whether the package is installed, `say`
-- words a note, and `clock` is what `datetime.now` answers.
pub record Maker : Type 0 where
  pub session_id : String
  pub compliance_actor : String
  pub role : String
  pub state_provider : Option (Items → Fields)
  pub trust_store : Option TrustStore
  pub roster : Option Roster
  pub cryptography : Bool
  pub say : Note → String
  pub clock : ℕ

-- The fields that its methods change.
pub record MakerState : Type 0 where
  pub is_halted : Bool
  pub is_held : Bool
  pub hold_ref : Value
  pub hold_conditions : Items
  pub directives : List DirectiveRecord

abbrev pub initial : MakerState
initial = record {
  is_halted = false;
  is_held = false;
  hold_ref = null;
  hold_conditions = nil;
  directives = [];
}

unfoldable pub should_continue : MakerState → Bool
should_continue s = not s.is_halted

-- `authorize` of the role that an envelope claims. One that is no text is not a compliance role.
unfoldable pub authorize_sender : Value → Verb → String → Option Roster → Option AuthorizationReason
authorize_sender role verb maker_id roster = elim (as_str role) [
  | none ↦ some (if is_steer_verb verb then not_a_compliance_role else not_a_steer_verb)
  | some r ↦
      let auth = authorize r verb maker_id roster in if auth.allowed then none else some auth.reason
]

module _ (host : Host) (maker : Maker) where
  -- The checks behind the signature, with the answer of the nonce store.
  unfoldable pub freshness_rejection : Fields → Message → Bool → Option Rejection
  freshness_rejection d msg seen =
      let auth = authorize_sender msg.from_party.role msg.verb maker.session_id maker.roster in
      let late : Option Rejection = elim (parse_datetime host (get "expires_at" d)) [
        | none ↦ some no_expiry
        | some expires_at ↦
            if leb expires_at maker.clock
            then some envelope_expired
            else if not (truthy (get "nonce" d))
            then some no_nonce
            else if seen
            then some replayed
            else Option.map not_authorized auth
      ] in
      late

  unfoldable pub binding_rejection : Fields → Message → Bool → TrustBinding → Option Rejection
  binding_rejection d msg seen b =
      let key_id = get "key_id" d in
      let errors = verify_signature host d b.public_key in
      if not (authorizes_type b envelope_object_type)
      then some (key_not_for_envelopes key_id)
      else if not (authorizes_role b msg.from_party.role)
      then some (key_not_for_role key_id msg.from_party.role)
      else if not (is_identity b msg.from_party.actor)
      then some (key_not_for_sender key_id b.identity msg.from_party.actor)
      else if not maker.cryptography
      then some no_cryptography
      else if not (is_empty errors)
      then some (signature_rejected errors)
      else freshness_rejection d msg seen

  resolved_rejection : Fields → Message → Bool → Option TrustBinding → Option Rejection
  resolved_rejection d msg seen none = some (unknown_key (get "key_id" d))
  resolved_rejection d msg seen (some b) = binding_rejection d msg seen b

  -- `_verify_envelope` in authenticated mode, up to the recording of the nonce
  unfoldable pub envelope_rejection : TrustStore → Fields → Message → Bool → Option Rejection
  unfolding resolved_rejection
  envelope_rejection trust d msg seen =
      if not (truthy (get "signature" d)) || not (truthy (get "key_id" d))
      then some unsigned_envelope
      else resolved_rejection d msg seen (trust (get "key_id" d))

  module _ {S : Type 0} (store : NonceStore S) where
    -- The nonce is recorded only when every check has passed. `__post_init__` sees to it that there
    -- is a nonce store in authenticated mode.
    unfoldable pub settle : Fields → Message → S → Option Rejection → EnvelopeVerdict × S
    settle d msg s (some r) = (refused r, s)
    settle d msg s none = (authenticated, store.record_nonce s msg.from_party.actor (get "nonce" d))

    abbrev seen_before : Fields → Message → S → Bool
    seen_before d msg s = store.seen s msg.from_party.actor (get "nonce" d)

    unfoldable pub verify_envelope : Fields → Message → S → EnvelopeVerdict × S
    unfolding settle
    verify_envelope d msg s = elim maker.trust_store [
      | none ↦ (advisory, s)
      | some trust ↦ settle d msg s (envelope_rejection trust d msg (seen_before d msg s))
    ]
