-- ===== src/Envelope/Laws.antt =====
-- envelope.py: a message survives its wire form.
use a2a_compliance.Verbs.{name, of_name, SteerVerdict, satisfied, not_satisfied, open_verdict}
use a2a_compliance.Envelope.{
  to_wire, base_wire, Message, Party, party_wire, authority_wire, grounding_wire, enforcement_wire,
  plane_wires, Enforcement,
}
use a2a_compliance.Envelope.Parser.{
  from_wire, party_from_wire, authority_from_wire, grounding_from_wire, enforcement_from_wire,
  planes_from_wire, verb_from, planes_of_items, verdict_from, plane_from_wire,
}
use a2a_compliance.Json.{Fields, get, has, put_given, field, end}
use a2a_compliance.Prelude.{
  String, ◌≡◌, ◌==◌, some, false, true, ◌∙◌, refl, Option, none, List, ◌∷◌, [],
}
use a2a_compliance.Authority.{AuthorityBlock}
use a2a_compliance.Json.Laws.{
  get-put_given_other, get-put_given_self, has-put, has-put_given, get-put_other, get-put_self,
  has-put_self,
}
use a2a_compliance.Verbs.{
  value, of_value, Verb, query_state, issue_directive, hold, resume, halt, report_state, ack,
  escalate,
}
use a2a_compliance.Grounding.{Grounding, PlaneFinding}

-- The wire form with one optional field, with two and with three.
abbrev with_nonce : Message → Fields
with_nonce m = put_given "nonce" m.nonce (base_wire m)

abbrev with_expiry : Message → Fields
with_expiry m = put_given "expires_at" m.expires_at (with_nonce m)

abbrev with_key : Message → Fields
with_key m = put_given "key_id" m.key_id (with_expiry m)

-- The four optional fields leave every other field alone.
get-to_wire :
    (j : String) (m : Message)
    → ("nonce" == j) ≡ false
    → ("expires_at" == j) ≡ false
    → ("key_id" == j) ≡ false
    → ("signature" == j) ≡ false
    → get j (to_wire m) ≡ get j (base_wire m)
unfolding to_wire
get-to_wire j m a b c d =
    get-put_given_other j "signature" m.signature (with_key m) d
    ∙ (get-put_given_other j "key_id" m.key_id (with_expiry m) c
        ∙ (get-put_given_other j "expires_at" m.expires_at (with_nonce m) b
            ∙ get-put_given_other j "nonce" m.nonce (base_wire m) a))

has-to_wire : (j : String) (m : Message) → has j (base_wire m) ≡ true → has j (to_wire m) ≡ true
unfolding to_wire
has-to_wire j m h = has-put_given j "signature" m.signature (with_key m) (
    has-put_given j "key_id" m.key_id (with_expiry m) (
      has-put_given j "expires_at" m.expires_at (with_nonce m)
        (has-put_given j "nonce" m.nonce (base_wire m) h)))

nonce-to_wire : (m : Message) → get "nonce" (to_wire m) ≡ m.nonce
unfolding to_wire base_wire
nonce-to_wire m =
    get-put_given_other "nonce" "signature" m.signature (with_key m) refl
    ∙ (get-put_given_other "nonce" "key_id" m.key_id (with_expiry m) refl
        ∙ (get-put_given_other "nonce" "expires_at" m.expires_at (with_nonce m) refl
            ∙ get-put_given_self "nonce" m.nonce (base_wire m) refl))

expires_at-to_wire : (m : Message) → get "expires_at" (to_wire m) ≡ m.expires_at
unfolding to_wire base_wire
expires_at-to_wire m =
    get-put_given_other "expires_at" "signature" m.signature (with_key m) refl
    ∙ (get-put_given_other "expires_at" "key_id" m.key_id (with_expiry m) refl
        ∙ get-put_given_self "expires_at" m.expires_at (with_nonce m)
            (get-put_given_other "expires_at" "nonce" m.nonce (base_wire m) refl))

key_id-to_wire : (m : Message) → get "key_id" (to_wire m) ≡ m.key_id
unfolding to_wire base_wire
key_id-to_wire m =
    get-put_given_other "key_id" "signature" m.signature (with_key m) refl
    ∙ get-put_given_self "key_id" m.key_id (with_expiry m) (
        get-put_given_other "key_id" "expires_at" m.expires_at (with_nonce m) refl
        ∙ get-put_given_other "key_id" "nonce" m.nonce (base_wire m) refl)

signature-to_wire : (m : Message) → get "signature" (to_wire m) ≡ m.signature
unfolding to_wire base_wire
signature-to_wire m = get-put_given_self "signature" m.signature (with_key m) (
    get-put_given_other "signature" "key_id" m.key_id (with_expiry m) refl
    ∙ (get-put_given_other "signature" "expires_at" m.expires_at (with_nonce m) refl
        ∙ get-put_given_other "signature" "nonce" m.nonce (base_wire m) refl))

party_round_trip : (p : Party) → party_from_wire (party_wire p) ≡ some p
unfolding party_from_wire party_wire
party_round_trip p = refl

abbrev with_role : AuthorityBlock → Fields
with_role a = put_given "role" a.role (field "basis" a.basis end)

abbrev with_oversees : AuthorityBlock → Fields
with_oversees a = put_given "oversees" a.oversees (with_role a)

authority_round_trip : (a : AuthorityBlock) → authority_from_wire (authority_wire a) ≡ some a
unfolding authority_from_wire authority_wire
authority_round_trip a =
    rw
      (
        has-put "basis" "reserved" a.reserved (with_oversees a) (
            has-put_given "basis" "oversees" a.oversees (with_role a)
              (has-put_given "basis" "role" a.role (field "basis" a.basis end) refl)),
        get-put_other "basis" "reserved" a.reserved (with_oversees a) refl,
        get-put_given_other "basis" "oversees" a.oversees (with_role a) refl,
        get-put_given_other "basis" "role" a.role (field "basis" a.basis end) refl,
        get-put_other "role" "reserved" a.reserved (with_oversees a) refl,
        get-put_given_other "role" "oversees" a.oversees (with_role a) refl,
        get-put_given_self "role" a.role (field "basis" a.basis end) refl,
        get-put_other "oversees" "reserved" a.reserved (with_oversees a) refl,
        get-put_given_self "oversees" a.oversees (with_role a)
            (get-put_given_other "oversees" "role" a.role (field "basis" a.basis end) refl),
        get-put_self "reserved" a.reserved (with_oversees a),
        has-put_self "reserved" a.reserved (with_oversees a),
      )
      refl

name_round_trip : (v : SteerVerdict) → of_name (name v) ≡ some v
unfolding name of_name
name_round_trip satisfied = refl
name_round_trip not_satisfied = refl
name_round_trip open_verdict = refl

value_round_trip : (v : Verb) → of_value (value v) ≡ some v
unfolding value of_value
value_round_trip query_state = refl
value_round_trip issue_directive = refl
value_round_trip hold = refl
value_round_trip resume = refl
value_round_trip halt = refl
value_round_trip report_state = refl
value_round_trip ack = refl
value_round_trip escalate = refl

planes_round_trip : (pfs : List PlaneFinding) → planes_of_items (plane_wires pfs) ≡ some pfs
unfolding plane_wires planes_of_items plane_from_wire verdict_from
planes_round_trip [] = refl
planes_round_trip (pf ∷ pfs) = rw (name_round_trip pf.verdict, planes_round_trip pfs) refl

grounding_round_trip : (g : Option Grounding) → grounding_from_wire (grounding_wire g) ≡ some g
unfolding grounding_wire grounding_from_wire planes_from_wire verdict_from
grounding_round_trip none = refl
grounding_round_trip (some g) = rw (name_round_trip g.verdict, planes_round_trip g.planes) refl

enforcement_round_trip :
    (e : Option Enforcement) → enforcement_from_wire (enforcement_wire e) ≡ some e
unfolding enforcement_wire enforcement_from_wire
enforcement_round_trip none = refl
enforcement_round_trip (some e) = refl

-- Every message is parsed back from its wire form as it was, optional fields and null planes
-- included.
pub from_wire-to_wire : (m : Message) → from_wire (to_wire m) ≡ some m
unfolding from_wire verb_from base_wire
from_wire-to_wire m =
    rw
      (
        get-to_wire "from" m refl refl refl refl,
        get-to_wire "to" m refl refl refl refl,
        get-to_wire "verb" m refl refl refl refl,
        get-to_wire "authority" m refl refl refl refl,
        get-to_wire "grounding" m refl refl refl refl,
        get-to_wire "enforcement" m refl refl refl refl,
        get-to_wire "id" m refl refl refl refl,
        get-to_wire "ts" m refl refl refl refl,
        get-to_wire "body" m refl refl refl refl,
        get-to_wire "protocol" m refl refl refl refl,
        get-to_wire "correlates" m refl refl refl refl,
        has-to_wire "id" m refl,
        has-to_wire "ts" m refl,
        has-to_wire "body" m refl,
        has-to_wire "protocol" m refl,
        nonce-to_wire m,
        expires_at-to_wire m,
        key_id-to_wire m,
        signature-to_wire m,
        party_round_trip m.from_party,
        party_round_trip m.to,
        value_round_trip m.verb,
        authority_round_trip m.authority,
        grounding_round_trip m.grounding,
        enforcement_round_trip m.enforcement,
      )
      refl
