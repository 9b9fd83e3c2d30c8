-- ===== src/Host.antt =====
-- What the program takes from outside its own text: SHA-256, Ed25519, base64, the `jsonschema`
-- validators and the ISO 8601 reader and printer. Each is a parameter, and a law about it is a
-- named hypothesis of the theorem that needs it. A text stands for its UTF-8 bytes.
use a2a_compliance.Prelude.{ℕ, String, List, Bool, Option, some, ◌≡◌}
use a2a_compliance.Json.{Value}

abbrev pub Bytes : Type 0
Bytes = List ℕ

-- A `datetime` by its microseconds: `aware` is an instant in UTC, `naive` has no zone.
pub data DateTime : Type 0 where
  aware naive : ℕ → DateTime

-- `value if value.tzinfo is not None else value.replace(tzinfo=timezone.utc)`
abbrev pub as_utc : DateTime → ℕ
as_utc (aware t) = t
as_utc (naive t) = t

pub record Host : Type 0 where
  -- `hashlib.sha256(text.encode("utf-8")).hexdigest()`
  pub sha256_hex : String → String
  -- `hashlib.sha256(text.encode("utf-8")).digest()`
  pub sha256 : String → Bytes
  -- `base64.urlsafe_b64encode(data)`, with its padding
  pub urlsafe_b64encode : Bytes → String
  -- `base64.urlsafe_b64decode(text)`, or the error
  pub urlsafe_b64decode : String → Option Bytes
  -- `base64.b64decode(text, validate=True)`, or the error
  pub b64decode : String → Option Bytes
  -- whether `Ed25519PublicKey.from_public_bytes(key).verify(signature, message)` returns
  pub ed25519_verify : Bytes → Bytes → String → Bool
  -- the sorted messages of `validator_for(obj_type).iter_errors(obj)`
  pub schema_errors : String → Value → List String
  -- `datetime.fromisoformat`, or `ValueError`
  pub fromisoformat : String → Option DateTime
  -- `isoformat` of an instant in UTC
  pub isoformat : ℕ → String

-- The printer and the reader of instants agree.
abbrev pub ReadsBack : Host → Type 0
ReadsBack h = (t : ℕ) → h.fromisoformat (h.isoformat t) ≡ some (aware t)

-- SHA-256 without collisions.
abbrev pub CollisionFree : Host → Type 0
CollisionFree h = (s t : String) → h.sha256_hex s ≡ h.sha256_hex t → s ≡ t
