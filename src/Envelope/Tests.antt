-- ===== src/Envelope/Tests.antt =====
-- Instances of the theorems on envelopes.
use a2a_compliance.Envelope.{Message, to_wire}
use a2a_compliance.Envelope.Parser.{from_wire}
use a2a_compliance.Envelope.Laws.{from_wire-to_wire}
use a2a_compliance.Json.{str, obj, field, end, null, bool}
use a2a_compliance.Prelude.{◌≡◌, some, true, ◌∷◌, [], none}
use a2a_compliance.Verbs.{Verb, not_satisfied}

-- A signed halt with a grounding block and without a role in its authority.
abbrev pub test_message : Message
test_message = record {
  id = str "m1";
  ts = str "t";
  from_party = record { actor = str "ann"; role = str "policy-compliance" };
  to = record { actor = str "bot"; role = str "maker" };
  verb = Verb.halt;
  body = obj (field "scope" (str "session") end);
  authority = record {
    basis = str "role";
    role = null;
    oversees = str "bot";
    reserved = bool true;
  };
  protocol = str "a2a-compliance/0.1";
  correlates = null;
  grounding = some (record {
    verdict = not_satisfied;
    planes = record { plane = str "deontic"; verdict = not_satisfied; detail = obj end } ∷ [];
    criterion_ref = null;
  });
  enforcement = none;
  nonce = str "once";
  expires_at = str "later";
  key_id = str "key";
  signature = str "sig";
}

from_wire-to_wire_example : from_wire (to_wire test_message) ≡ some test_message
from_wire-to_wire_example = from_wire-to_wire test_message
