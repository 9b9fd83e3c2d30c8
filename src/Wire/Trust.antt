-- ===== src/Wire/Trust.antt =====
-- wire/trust.py: the ports for keys and revocations, and their in-memory versions.
pub mod Laws
use a2a_compliance.Prelude.{
  String, List, none, false, Option, Bool, ◌∷◌, ℕ, contains, some, if◌then◌else◌, ◌++◌, ◌==◌, ◌||◌,
  [], ◌&&◌, leb,
}
use a2a_compliance.Host.{Bytes}
use a2a_compliance.Json.{Value, str, is_str}
use a2a_compliance.Json.Equality.{same}

abbrev pub any : String
any = "*"

pub record TrustBinding : Type 0 where
  pub public_key : Bytes
  pub object_types : List String
  pub roles : List String
  pub identity : Option String

-- `x in s` for a set of texts
abbrev pub member : List String → Value → Bool
member s (str t) = contains s t
member s _ = false

unfoldable pub authorizes_type : TrustBinding → String → Bool
authorizes_type b obj_type = contains b.object_types any || contains b.object_types obj_type

unfoldable pub authorizes_role : TrustBinding → Value → Bool
authorizes_role b role = contains b.roles any || member b.roles role

-- `binding.identity is not None and binding.identity == x`
abbrev pub is_identity : TrustBinding → Value → Bool
is_identity b v = elim b.identity [ none ↦ false | some i ↦ is_str v i ]

-- The port `TrustStore`: its method `resolve`. A key that is not known has no binding.
abbrev pub TrustStore : Type 0
TrustStore = Value → Option TrustBinding

-- `InMemoryTrustStore`: `add` and `resolve`
abbrev pub InMemoryTrustStore : Type 0
InMemoryTrustStore = List (String × TrustBinding)

unfoldable pub add : InMemoryTrustStore → String → TrustBinding → InMemoryTrustStore
add [] key_id b = (key_id, b) ∷ []
add ((k, c) ∷ s) key_id b =
    let more = add s key_id b in if k == key_id then (key_id, b) ∷ s else (k, c) ∷ more

unfoldable pub resolve : InMemoryTrustStore → TrustStore
resolve [] key_id = none
resolve ((k, b) ∷ s) key_id = if is_str key_id k then some b else resolve s key_id

-- The port `RevocationStore`: its method `is_revoked`, at a type, an id and an instant.
abbrev pub RevocationStore : Type 0
RevocationStore = String → Value → ℕ → Bool

abbrev pub InMemoryRevocationStore : Type 0
InMemoryRevocationStore = List (String × Value × ℕ)

-- `revoke`
unfoldable pub revoke : InMemoryRevocationStore → String → Value → ℕ → InMemoryRevocationStore
revoke s revoked_type revoked_id effective_at = s ++ (revoked_type, revoked_id, effective_at) ∷ []

unfoldable pub is_revoked : InMemoryRevocationStore → RevocationStore
is_revoked [] revoked_type revoked_id at = false
is_revoked ((t, i, eff) ∷ s) revoked_type revoked_id at =
    ((t == revoked_type && same i revoked_id) && leb eff at)
    || is_revoked s revoked_type revoked_id at
