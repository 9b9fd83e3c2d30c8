-- ===== src/Envelope.antt =====
-- envelope.py: the control message, its bodies, and its text on the wire. An id, a nonce and an
-- instant that the source takes from `uuid` and the clock are arguments.
pub mod Parser
pub mod Laws
pub mod Tests
use mathlib.Core.Option
use a2a_compliance.Prelude.{
  ◌>>=◌, ℕ, ◌+◌, ◌*◌, String, List, [], ◌∷◌, Bool, true, false, ◌&&◌, not, Option, none, some,
  contains, if◌then◌else◌, ◌==◌,
}
use a2a_compliance.Json.{
  item, Value, Items, Fields, obj, arr, null, bool, str, cons, nil, field, end, get, has, put,
  texts, as_str, as_dict, opt_str, get_default, put_given,
}
use a2a_compliance.Verbs.{Verb, SteerVerdict, value, of_value, name, of_name}
use a2a_compliance.Authority.{AuthorityBlock}
use a2a_compliance.Grounding.{Grounding, PlaneFinding}
use a2a_compliance.Host.{Host}
use a2a_compliance.Wire.Canonical.{digest_hex}

-- `interfaces.a2a_control.Party`. A parsed message holds what the wire says, so the fields of the
-- records below are JSON values; `None` is `null`.
pub record Party : Type 0 where
  pub actor : Value
  pub role : Value

pub record Enforcement : Type 0 where
  pub engine : Value
  pub verdict : Value
  pub gate_verdict : Value
  pub audit_id : Value
  pub advisory : Value

pub record Message : Type 0 where
  pub id : Value
  pub ts : Value
  pub from_party : Party
  pub to : Party
  pub verb : Verb
  pub body : Value
  pub authority : AuthorityBlock
  pub protocol : Value
  pub correlates : Value
  pub grounding : Option Grounding
  pub enforcement : Option Enforcement
  pub nonce : Value
  pub expires_at : Value
  pub key_id : Value
  pub signature : Value

abbrev pub protocol_name : String
protocol_name = "a2a-compliance/0.1"

abbrev pub default_ttl_seconds : ℕ
default_ttl_seconds = 300

-- What `uuid.uuid4` and the clock give to one new message.
pub record Stamp : Type 0 where
  pub uuid : String
  pub now : String

unfoldable pub new_message :
    Stamp → Party → Party → Verb → Fields → AuthorityBlock → Value → Option Grounding → Message
new_message stamp from_party to verb body authority correlates grounding = record {
  id = str stamp.uuid;
  ts = str stamp.now;
  from_party = from_party;
  to = to;
  verb = verb;
  body = obj body;
  authority = authority;
  protocol = str protocol_name;
  correlates = correlates;
  grounding = grounding;
  enforcement = none;
  nonce = null;
  expires_at = null;
  key_id = null;
  signature = null;
}

-- The bodies. An optional argument that is `None` leaves its key out.
unfoldable pub query_state_body : List String → Fields
query_state_body include = field "include" (arr (texts include)) end

unfoldable pub issue_directive_body : String → String → Option String → Fields
issue_directive_body instruction kind reason_ref =
    put_given "reason_ref" (opt_str reason_ref)
      (field "instruction" (str instruction) (field "kind" (str kind) end))

opt_texts : Option (List String) → Value
opt_texts none = null
opt_texts (some ss) = arr (texts ss)

unfoldable pub hold_body : String → Option String → Option (List String) → Fields
unfolding opt_texts
hold_body scope reason_ref conditions =
    put_given "conditions" (opt_texts conditions)
      (put_given "reason_ref" (opt_str reason_ref) (field "scope" (str scope) end))

unfoldable pub resume_body : String → Option String → Fields
resume_body hold_ref note = put_given "note" (opt_str note) (field "hold_ref" (str hold_ref) end)

unfoldable pub halt_body : Option String → Fields
halt_body reason_ref =
    put_given "reason_ref" (opt_str reason_ref)
      (field "scope" (str "session") (field "irreversible" (bool true) end))

-- The arguments are JSON values; `list(x)` copies a list.
unfoldable pub report_state_body : Value → Value → Value → Value → Fields
report_state_body mandate trajectory tools claims = put_given "claims" claims (
    put_given "tools" tools (
      put_given "trajectory" trajectory
        (put_given "mandate" mandate (field "provenance" (str "self-report") end))))

unfoldable pub ack_body : Value → Bool → Option String → Fields
ack_body directive_ref accepted note =
    put_given "note" (opt_str note)
      (field "directive_ref" directive_ref (field "accepted" (bool accepted) end))

unfoldable pub escalate_body : String → String → Option String → Fields
escalate_body trigger requested detail =
    put_given "detail" (opt_str detail)
      (field "trigger" (str trigger) (field "requested" (str requested) end))

-- `_party_wire`, `_authority_wire`, `_grounding_wire`, `_enforcement_wire`
unfoldable pub party_wire : Party → Value
party_wire p = obj (field "actor" p.actor (field "role" p.role end))

unfoldable pub authority_wire : AuthorityBlock → Value
authority_wire a = obj (
    put "reserved" a.reserved
      (put_given "oversees" a.oversees (put_given "role" a.role (field "basis" a.basis end))))

unfoldable pub plane_wires : List PlaneFinding → Items
plane_wires [] = nil
plane_wires (pf ∷ pfs) =
    cons
      (obj (
        field "plane" pf.plane
          (field "verdict" (str (name pf.verdict)) (field "detail" pf.detail end))))
      (plane_wires pfs)

unfoldable pub grounding_wire : Option Grounding → Value
unfolding plane_wires
grounding_wire none = null
grounding_wire (some g) = obj (
    field "verdict" (str (name g.verdict))
      (field "planes" (arr (plane_wires g.planes)) (field "criterion_ref" g.criterion_ref end)))

unfoldable pub enforcement_wire : Option Enforcement → Value
enforcement_wire none = null
enforcement_wire (some e) = obj (
    field "engine" e.engine (
      field "verdict" e.verdict (
        field "gate_verdict" e.gate_verdict
          (field "audit_id" e.audit_id (field "advisory" e.advisory end)))))

unfoldable pub base_wire : Message → Fields
base_wire m = field "protocol" m.protocol (
    field "id" m.id (
      field "correlates" m.correlates (
        field "ts" m.ts (
          field "from" (party_wire m.from_party) (
            field "to" (party_wire m.to) (
              field "verb" (str (value m.verb)) (
                field "body" m.body (
                  field "authority" (authority_wire m.authority) (
                    field "grounding" (grounding_wire m.grounding)
                      (field "enforcement" (enforcement_wire m.enforcement) end))))))))))

unfoldable pub to_wire : Message → Fields
unfolding base_wire
to_wire m = put_given "signature" m.signature (
    put_given "key_id" m.key_id
      (put_given "expires_at" m.expires_at (put_given "nonce" m.nonce (base_wire m))))

-- `d.pop(k, None)`
unfoldable pub remove : String → Fields → Fields
remove k end = end
remove k (field j v d) = let rest = remove k d in if j == k then d else field j v rest

-- The copy that is handed to `sign`.
unfoldable pub stamped : Host → Fields → String → String → ℕ → ℕ → Fields
unfolding remove
stamped host wire key_id nonce reference ttl_seconds = remove "signature" (
    put "key_id" (str key_id) (
      put "expires_at" (str (host.isoformat (reference + ttl_seconds * 1000000)))
        (put "nonce" (str nonce) wire)))

-- `sign` is the issuer's: it answers with the signature.
unfoldable pub stamp_and_sign : Host → (Fields → String) → Fields → String → String → ℕ → ℕ → Fields
unfolding stamped
stamp_and_sign host sign wire key_id nonce reference ttl_seconds =
    let signed = stamped host wire key_id nonce reference ttl_seconds in
    put "signature" (str (sign signed)) signed

unfoldable pub halt_digest : Host → String → String → Option String → Option String
halt_digest host compliance_actor maker reason_ref = digest_hex host (
    obj (
      field "verb" (str (value Verb.halt)) (
        field "from" (str compliance_actor)
          (field "to" (str maker) (field "reason_ref" (opt_str reason_ref) end)))))
