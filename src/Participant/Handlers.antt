-- ===== src/Participant/Handlers.antt =====
-- participant.py: the handlers of a maker, which change its state and answer.
use a2a_compliance.Prelude.{◌>>=◌, if◌then◌else◌}
use a2a_compliance.Json.{put, truthy}
use a2a_compliance.Participant.{
  Maker, MakerState, Note, Rejection, applied_directive, resumed_note, halted_note, rejection,
  held_note, not_accept_verb,
}
use a2a_compliance.Json.{
  Fields, Value, Items, as_dict, str, get_default, get, nil, arr, null, end, field, cons, bool, obj,
}
use a2a_compliance.Prelude.{String, Option, Bool, true, none, false, some, ◌++◌, ◌∷◌, []}
use a2a_compliance.Envelope.{Party, Message, Stamp, new_message, ack_body, report_state_body}
use a2a_compliance.Authority.{AuthorityBlock}
use a2a_compliance.Verbs.{Verb, ack}

-- `list(x)`; `none` is the `TypeError` of what has no elements
keys : Fields → Items
keys end = nil
keys (field k v d) = cons (str k) (keys d)

chars : String → Items
chars String.[] = nil
chars (String.◌∷◌ c s) = cons (str (String.◌∷◌ c "")) (chars s)

unfoldable pub list_of : Value → Option Items
unfolding keys chars
list_of (arr vs) = some vs
list_of (obj d) = some (keys d)
list_of (str s) = some (chars s)
list_of _ = none

-- `resp.body["mode"] = mode`
unfoldable pub with_mode : String → Message → Message
with_mode mode resp = record resp {
  body = elim (as_dict resp.body) [ none ↦ resp.body | some d ↦ obj (put "mode" (str mode) d) ];
}

module _ (maker : Maker) where
  unfoldable pub me : Party
  me = record { actor = str maker.session_id; role = str maker.role }

  unfoldable pub to_compliance : Message → Party
  to_compliance msg = record { actor = str maker.compliance_actor; role = msg.from_party.role }

  unfoldable pub maker_authority : AuthorityBlock
  maker_authority = record {
    basis = str "role";
    role = str maker.role;
    oversees = null;
    reserved = bool false;
  }

  -- the message that each handler returns
  unfoldable pub reply : Stamp → Message → Verb → Fields → Message
  unfolding me to_compliance maker_authority
  reply stamp msg verb body =
      new_message stamp me (to_compliance msg) verb body maker_authority msg.id none

  unfoldable pub acknowledge : Stamp → Message → Bool → Note → Message
  unfolding reply
  acknowledge stamp msg accepted note =
      reply stamp msg ack (ack_body msg.id accepted (some (maker.say note)))

  unfoldable pub reject : Stamp → Message → Rejection → Message
  unfolding acknowledge
  reject stamp msg reason = acknowledge stamp msg false (rejection reason)

  -- A handler answers with no message where it raises, and with the state that it leaves.
  unfoldable pub issue : Stamp → Message → MakerState → Option Fields → Option Message × MakerState
  unfolding acknowledge
  issue stamp msg s none = (none, s)
  issue stamp msg s (some body) =
      let kind = get_default "kind" (str "") body in
      let instruction = get_default "instruction" (str "") body in
      (
        some (acknowledge stamp msg true (applied_directive kind)),
        record s {
          directives =
              s.directives
              ++ record { directive_id = msg.id; kind = kind; instruction = instruction } ∷ [];
        },
      )

  -- The two flags are set before the conditions are read.
  abbrev held_by : Message → MakerState → MakerState
  held_by msg s = record s { is_held = true; hold_ref = msg.id }

  unfoldable pub hold_with :
      Stamp → Message → MakerState → Option Items → Option Message × MakerState
  unfolding acknowledge
  hold_with stamp msg s none = (none, held_by msg s)
  hold_with stamp msg s (some conditions) = (
    some (acknowledge stamp msg true held_note),
    record (held_by msg s) { hold_conditions = conditions },
  )

  unfoldable pub conditions_of : Option Fields → Option Items
  unfolding list_of
  conditions_of none = none
  conditions_of (some body) =
      if truthy (get "conditions" body) then list_of (get "conditions" body) else some nil

  unfoldable pub let_go : Stamp → Message → MakerState → Option Message × MakerState
  unfolding acknowledge
  let_go stamp msg s = (
    some (acknowledge stamp msg true resumed_note),
    record s { is_held = false; hold_ref = null; hold_conditions = nil },
  )

  unfoldable pub accept_by : Stamp → Message → Verb → MakerState → Option Message × MakerState
  unfolding issue hold_with conditions_of let_go acknowledge
  accept_by stamp msg Verb.issue_directive s = issue stamp msg s (as_dict msg.body)
  accept_by stamp msg Verb.hold s = hold_with stamp msg s (conditions_of (as_dict msg.body))
  accept_by stamp msg Verb.resume s = let_go stamp msg s
  accept_by stamp msg verb s = (some (acknowledge stamp msg false (not_accept_verb verb)), s)

  unfoldable pub accept_directive : Stamp → Message → MakerState → Option Message × MakerState
  unfolding accept_by
  accept_directive stamp msg s = accept_by stamp msg msg.verb s

  state_of : Option (Items → Fields) → Items → Fields
  state_of none include = end
  state_of (some provider) include = provider include

  -- The provider's values are lists where the body wants lists.
  unfoldable pub report_state : Stamp → Message → Option Message
  unfolding list_of reply state_of
  report_state stamp query = do
    body ← as_dict query.body
    include ← list_of (get_default "include" (arr nil) body)
    let state = state_of maker.state_provider include
    some (
        reply stamp query Verb.report_state (
          report_state_body (get "mandate" state) (get "trajectory" state) (get "tools" state)
            (get "claims" state)))

  unfoldable pub halt : Stamp → Message → MakerState → Message × MakerState
  unfolding acknowledge
  halt stamp msg s = (acknowledge stamp msg true halted_note, record s { is_halted = true })
