-- ===== src/Envelope/Parser.antt =====
-- envelope.py: the parser of an envelope.
use a2a_compliance.Prelude.{
  ◌>>=◌, List, String, Option, Bool, some, true, if◌then◌else◌, [], none, ◌∷◌, ◌&&◌, ◌==◌, contains,
  false,
}
use a2a_compliance.Json.{
  item, get, has, Value, Items, Fields, obj, get_default, str, arr, field, bool, end, cons, nil,
  null,
}
use a2a_compliance.Envelope.{Message, Party, Enforcement, protocol_name}
use a2a_compliance.Authority.{AuthorityBlock}
use a2a_compliance.Verbs.{Verb, SteerVerdict, of_value, of_name}
use a2a_compliance.Grounding.{PlaneFinding, Grounding}

-- `Party(**d)`: the two keys and no other, or `TypeError`
only_keys : List String → Fields → Bool
only_keys keys end = true
only_keys keys (field k v d) = contains keys k && only_keys keys d

unfoldable pub party_from_wire : Value → Option Party
unfolding only_keys
party_from_wire (obj d) =
    if only_keys ("actor" ∷ "role" ∷ []) d && (has "actor" d && has "role" d)
    then some (record { actor = get "actor" d; role = get "role" d })
    else none
party_from_wire _ = none

unfoldable pub authority_from_wire : Value → Option AuthorityBlock
authority_from_wire (obj d) = some (record {
  basis = get_default "basis" (str "role") d;
  role = get "role" d;
  oversees = get "oversees" d;
  reserved = get_default "reserved" (bool false) d;
})
authority_from_wire _ = none

-- `Verb(x)` and `SteerVerdict[x]`, or the error
unfoldable pub verb_from : Value → Option Verb
verb_from (str s) = of_value s
verb_from _ = none

unfoldable pub verdict_from : Value → Option SteerVerdict
verdict_from (str s) = of_name s
verdict_from _ = none

unfoldable pub plane_from_wire : Value → Option PlaneFinding
unfolding verdict_from
plane_from_wire (obj d) = do
  verdict ← verdict_from (get "verdict" d)
  plane ← item "plane" d
  some (record { plane = plane; verdict = verdict; detail = get_default "detail" (obj end) d })
plane_from_wire _ = none

unfoldable pub planes_of_items : Items → Option (List PlaneFinding)
unfolding plane_from_wire
planes_of_items nil = some []
planes_of_items (cons v vs) = do pf ← plane_from_wire v; pfs ← planes_of_items vs; some (pf ∷ pfs)

-- A loop over an empty dict or text has no round; over another one its body fails at a text.
unfoldable pub planes_from_wire : Value → Option (List PlaneFinding)
unfolding planes_of_items
planes_from_wire (arr vs) = planes_of_items vs
planes_from_wire (obj end) = some []
planes_from_wire (str s) = if s == "" then some [] else none
planes_from_wire _ = none

unfoldable pub grounding_from_wire : Value → Option (Option Grounding)
unfolding planes_from_wire verdict_from
grounding_from_wire null = some none
grounding_from_wire (obj d) = do
  verdict ← verdict_from (get "verdict" d)
  planes ← planes_from_wire (get_default "planes" (arr nil) d)
  some (some (record { verdict = verdict; planes = planes; criterion_ref = get "criterion_ref" d }))
grounding_from_wire _ = none

unfoldable pub enforcement_from_wire : Value → Option (Option Enforcement)
enforcement_from_wire null = some none
enforcement_from_wire (obj d) = some (
    some (record {
      engine = get_default "engine" (str "external") d;
      verdict = get_default "verdict" (str "permit") d;
      gate_verdict = get "gate_verdict" d;
      audit_id = get "audit_id" d;
      advisory = get_default "advisory" (bool true) d;
    }))
enforcement_from_wire _ = none

-- `none` is the `KeyError`, `TypeError`, `ValueError` or `AttributeError` of a malformed envelope.
unfoldable pub from_wire : Fields → Option Message
from_wire d = do
  from_party ← party_from_wire (get "from" d)
  to ← party_from_wire (get "to" d)
  verb ← verb_from (get "verb" d)
  authority ← authority_from_wire (get "authority" d)
  grounding ← grounding_from_wire (get "grounding" d)
  enforcement ← enforcement_from_wire (get "enforcement" d)
  id ← item "id" d
  ts ← item "ts" d
  some (record {
    id = id;
    ts = ts;
    from_party = from_party;
    to = to;
    verb = verb;
    body = get_default "body" (obj end) d;
    authority = authority;
    protocol = get_default "protocol" (str protocol_name) d;
    correlates = get "correlates" d;
    grounding = grounding;
    enforcement = enforcement;
    nonce = get "nonce" d;
    expires_at = get "expires_at" d;
    key_id = get "key_id" d;
    signature = get "signature" d;
  })

-- `[from_wire(w) for w in wires]`
unfoldable pub parse_all : List Fields → Option (List Message)
parse_all [] = some []
parse_all (d ∷ ds) = do m ← from_wire d; ms ← parse_all ds; some (m ∷ ms)
