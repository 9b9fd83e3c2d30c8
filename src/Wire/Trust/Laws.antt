-- ===== src/Wire/Trust/Laws.antt =====
-- The in-memory store of revocations.
use a2a_compliance.Wire.Trust.{is_revoked, InMemoryRevocationStore, revoke}
use a2a_compliance.Prelude.{String, ℕ, ◌≡◌, ◌||◌, ◌==◌, ◌&&◌, arith, leb, ◌∷◌, []}
use a2a_compliance.Json.{Value}
use a2a_compliance.Json.Equality.{same}

-- After `revoke` an id of a type is revoked at an instant exactly if it was before, or if the type
-- and the id are the given ones and the instant is not before the given one: a revocation holds
-- from its instant on, and it revokes nothing of another id or another type.
pub is_revoked-revoke :
    (s : InMemoryRevocationStore) (t u : String) (i j : Value) (eff at : ℕ)
    → is_revoked (revoke s t i eff) u j at
      ≡ (is_revoked s u j at || ((t == u && same i j) && leb eff at))
unfolding is_revoked revoke
is_revoked-revoke [] t u i j eff at = ground arith
is_revoked-revoke ((v, k, e) ∷ s) t u i j eff at =
    rw (is_revoked-revoke s t u i j eff at) (ground arith)
