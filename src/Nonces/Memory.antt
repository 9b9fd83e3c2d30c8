-- ===== src/Nonces/Memory.antt =====
-- `InMemoryNonceStore` of wire/verification.py: two sets, one for `record` and one for `consume`.
use a2a_compliance.Prelude.{
  List, Bool, ◌∷◌, arith, false, if◌then◌else◌, ◌≡◌, ◌&&◌, true, ◌||◌, [], refl,
}
use a2a_compliance.Json.{Value}
use a2a_compliance.Nonces.{NonceStore, IsNonceStore, IsSeparate}
use a2a_compliance.Json.Equality.{same, same_iff}

pub record MemoryNonces : Type 0 where
  pub seen_set : List (Value × Value)
  pub consumed : List (Value × Value)

-- `(run_id, nonce) in s`
unfoldable pub has_pair : List (Value × Value) → Value → Value → Bool
has_pair [] r n = false
has_pair ((r', n') ∷ s) r n = (same r' r && same n' n) || has_pair s r n

unfoldable pub seen : MemoryNonces → Value → Value → Bool
seen s r n = has_pair s.seen_set r n

unfoldable pub record_nonce : MemoryNonces → Value → Value → MemoryNonces
record_nonce s r n = record s { seen_set = (r, n) ∷ s.seen_set }

unfoldable pub consume : MemoryNonces → Value → Value → Bool × MemoryNonces
consume s r n =
    if has_pair s.consumed r n
    then (false, s)
    else (true, record s { consumed = (r, n) ∷ s.consumed })

abbrev pub memory_store : NonceStore MemoryNonces
memory_store = record { seen = seen; record_nonce = record_nonce; consume = consume }

same_self : (v : Value) → same v v ≡ true
same_self v = (same_iff v v).1 refl

-- The in-memory store keeps the promises of the port.
pub memory_store-IsNonceStore : IsNonceStore memory_store
unfolding seen record_nonce consume has_pair
memory_store-IsNonceStore = record {
  spent = λ s r n. has_pair s.consumed r n;
  seen-record_nonce = λ s r n. ground (arith, same_self r, same_self n);
  seen_kept = λ s r n r' n' h. ground arith;
  consume-spent = λ s r n. ground arith;
  spent-consume = λ s r n. ground (arith, same_self r, same_self n);
  spent_kept = λ s r n r' n' h. ground arith;
  spent_kept_record = λ s r n r' n' h. h;
  seen_kept_consume = λ s r n r' n' h. ground arith;
}

-- whether two pairs are equal
abbrev pub same_pair : Value → Value → Value → Value → Bool
same_pair r n r' n' = same r r' && same n n'

abbrev pub spent : MemoryNonces → Value → Value → Bool
unfolding has_pair
spent s r n = has_pair s.consumed r n

-- The in-memory store keeps two sets: `consume` answers true exactly for a pair that is not spent
-- and spends the given pair and no other, `record` makes the given pair seen and no other, and
-- neither changes what is seen or spent by the other.
pub memory_store-IsSeparate : IsSeparate memory_store spent same_pair
unfolding seen record_nonce consume has_pair
memory_store-IsSeparate = record {
  consume-spent = λ s r n. ground arith;
  spent-consume = λ s r n r' n'. ground (arith, same_iff r r', same_iff n n');
  spent-record_nonce = λ s r n r' n'. refl;
  seen-record_nonce = λ s r n r' n'. ground arith;
  seen-consume = λ s r n r' n'. ground arith;
}
