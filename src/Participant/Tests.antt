-- ===== src/Participant/Tests.antt =====
-- Instances of the theorems on a maker that polls.
use a2a_compliance.Envelope.Laws.{from_wire-to_wire}
use a2a_compliance.Verbs.{name, value, of_name, of_value}
use a2a_compliance.Nonces.Memory.{
  seen, record_nonce, has_pair, memory_store, memory_store-IsNonceStore,
}
use a2a_compliance.Participant.Handlers.{halt, with_mode, acknowledge, reply}
use a2a_compliance.Inbox.{
  pending, claimed, claim, publish, sort, insert, matching, mailbox, poll_box, put_box, next_seq,
  first_free, last_seq,
}
use a2a_compliance.Wire.Canonical.{subject, canon}
use a2a_compliance.Authority.{oversees, authorize}
use Prim.Native.Char.{Char}
use a2a_compliance.Envelope.Tests.{test_message}
use a2a_compliance.Participant.{
  Maker, initial, should_continue, envelope_rejection, binding_rejection, freshness_rejection,
  authorize_sender, verify_envelope, settle, resolved_rejection,
}
use a2a_compliance.Participant.Checkpoint.{
  World, drain, checkpoint, handle, handle_parsed, handle_message, after_round, post, dispatch,
  by_verb, labelled,
}
use a2a_compliance.Inbox.{put, poll, FileInbox, empty}
use a2a_compliance.Wire.Trust.{TrustStore, authorizes_type, authorizes_role}
use a2a_compliance.Prelude.{none, Bool, ℕ, some, [], true, ◌∷◌, ◌≡◌, false, refl, ◌++◌, ◌==◌}
use a2a_compliance.Nonces.Memory.{MemoryNonces}
use a2a_compliance.Json.{Fields, field, str, end, get}
use a2a_compliance.Envelope.{
  Stamp, to_wire, base_wire, party_wire, authority_wire, grounding_wire, enforcement_wire,
  plane_wires, new_message,
}
use a2a_compliance.Envelope.Parser.{
  from_wire, party_from_wire, authority_from_wire, verb_from, grounding_from_wire,
  enforcement_from_wire, planes_from_wire, planes_of_items, plane_from_wire, verdict_from,
}
use a2a_compliance.Wire.Fixtures.{test_binding, test_host}
use a2a_compliance.Participant.Stopping.{
  HasHaltOrder, checkpoint-HasHaltOrder, checkpoint-should_continue,
}
use a2a_compliance.Participant.Replay.{handle-once}
use a2a_compliance.Participant.Malformed.{checkpoint-malformed}
use a2a_compliance.Wire.Checks.{parse_datetime, replace_z}
use a2a_compliance.Wire.Signing.{verify_signature, pae_bytes}
use a2a_compliance.Nonces.File.{safe_component}

abbrev pub ann_trust : TrustStore
ann_trust key_id = some (record test_binding { roles = "*" ∷ [] })

abbrev pub test_maker : Maker
test_maker = record {
  session_id = "bot";
  compliance_actor = "ann";
  role = "maker";
  state_provider = none;
  trust_store = some ann_trust;
  roster = none;
  cryptography = true;
  say = λ n. "note";
  clock = 50;
}

abbrev pub no_nonces : MemoryNonces
no_nonces = record { seen_set = []; consumed = [] }

abbrev pub is_plain : Char → Bool
is_plain c = true

abbrev pub accepts : Fields → Bool
accepts d = true

abbrev pub test_stamp : Stamp
test_stamp = record { uuid = "u"; now = "t" }

abbrev pub stamps : ℕ → Stamp
stamps n = test_stamp

abbrev halt_wire : Fields
halt_wire = to_wire test_message

abbrev pub no_mail : FileInbox
no_mail name = empty

-- One halt waits in the mailbox of the maker.
abbrev waiting : World MemoryNonces
waiting = record {
  state = initial;
  nonces = no_nonces;
  inbox = (put is_plain accepts "bot" halt_wire no_mail).1;
}

abbrev polled : World MemoryNonces
polled = record waiting { inbox = (poll is_plain accepts "bot" waiting.inbox).1 }

-- The poll finds the halt, it is honoured, and the maker stops.
halt_stops :
    should_continue
      (checkpoint test_host test_maker memory_store is_plain accepts stamps waiting).world.state
    ≡ false
unfolding should_continue checkpoint drain handle handle_parsed handle_message after_round post
    verify_envelope settle envelope_rejection binding_rejection freshness_rejection authorize_sender
    authorize parse_datetime replace_z verify_signature pae_bytes canon subject authorizes_type
    authorizes_role seen has_pair record_nonce poll poll_box put put_box next_seq first_free claimed
    claim publish pending sort insert matching last_seq mailbox safe_component to_wire base_wire
    from_wire party_from_wire authority_from_wire verb_from grounding_from_wire
    enforcement_from_wire planes_from_wire planes_of_items plane_from_wire verdict_from of_value
    of_name value name party_wire authority_wire grounding_wire enforcement_wire plane_wires
    dispatch by_verb labelled halt with_mode acknowledge reply new_message oversees
    resolved_rejection
halt_stops = refl

checkpoint-HasHaltOrder_example :
    HasHaltOrder test_host test_maker memory_store is_plain accepts ann_trust stamps 0
      (poll is_plain accepts "bot" waiting.inbox).0
      polled
unfolding should_continue
checkpoint-HasHaltOrder_example =
    checkpoint-HasHaltOrder test_host test_maker memory_store is_plain accepts ann_trust refl stamps
      waiting refl halt_stops

checkpoint-should_continue_example :
    should_continue
      (checkpoint test_host test_maker memory_store is_plain accepts stamps
        (record waiting { state = record initial { is_halted = true } })).world.state
    ≡ false
unfolding should_continue
checkpoint-should_continue_example =
    checkpoint-should_continue test_host test_maker memory_store is_plain accepts stamps
      (record waiting { state = record initial { is_halted = true } }) refl

abbrev no_envelope : Fields
no_envelope = field "id" (str "m0") end

not_an_envelope : from_wire no_envelope ≡ none
unfolding from_wire party_from_wire
not_an_envelope = refl

-- A message without a sender waits in front of the halt.
abbrev blocked : World MemoryNonces
blocked = record waiting {
  inbox =
      (put is_plain accepts "bot" halt_wire (put is_plain accepts "bot" no_envelope no_mail).1).1;
}

blocked_batch : (poll is_plain accepts "bot" blocked.inbox).0 ≡ [] ++ no_envelope ∷ halt_wire ∷ []
unfolding poll poll_box put put_box next_seq first_free claimed claim publish pending sort insert
    matching last_seq mailbox safe_component
blocked_batch = refl

two_boxes : (mailbox is_plain accepts "bot" == mailbox is_plain accepts "ann") ≡ false
unfolding mailbox safe_component
two_boxes = refl

checkpoint-malformed_example :
    let outcome = checkpoint test_host test_maker memory_store is_plain accepts stamps blocked in
    let polled = (poll is_plain accepts "bot" blocked.inbox).1 in
    (outcome
      ≡ record (drain test_host test_maker memory_store is_plain accepts stamps 0 []
          (record blocked { inbox = polled })) { complete = false })
    × ((poll is_plain accepts "bot" outcome.world.inbox).0 ≡ [])
checkpoint-malformed_example =
    checkpoint-malformed test_host test_maker memory_store is_plain accepts stamps []
      (halt_wire ∷ []) no_envelope blocked two_boxes blocked_batch not_an_envelope

halt_passes :
    envelope_rejection test_host test_maker ann_trust halt_wire test_message
      (memory_store.seen no_nonces (str "ann") (get "nonce" halt_wire))
    ≡ none
unfolding envelope_rejection binding_rejection freshness_rejection authorize_sender authorize
    parse_datetime replace_z verify_signature pae_bytes canon subject authorizes_type
    authorizes_role seen has_pair to_wire base_wire oversees value name party_wire authority_wire
    grounding_wire enforcement_wire plane_wires resolved_rejection
halt_passes = refl

handle-once_example :
    let later : World MemoryNonces =
      (drain test_host test_maker memory_store is_plain accepts stamps 0 []
        (handle test_host test_maker memory_store is_plain accepts test_stamp halt_wire
          waiting).world).world in
    (handle test_host test_maker memory_store is_plain accepts test_stamp halt_wire
      later).world.state
    ≡ later.state
handle-once_example =
    handle-once test_host test_maker memory_store is_plain accepts memory_store-IsNonceStore
      ann_trust refl test_stamp test_stamp stamps halt_wire halt_wire [] test_message test_message
      waiting (from_wire-to_wire test_message) (from_wire-to_wire test_message) refl refl
      halt_passes
