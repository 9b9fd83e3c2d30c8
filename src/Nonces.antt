-- ===== src/Nonces.antt =====
-- The port `NonceStore` of wire/verification.py, and its two implementations.
pub mod Memory
pub mod File
use a2a_compliance.Json.{Value, bool}
use a2a_compliance.Prelude.{Bool, ◌≡◌, true, not, ◌||◌}

-- A store and its three methods; `record` is a reserved word of the language.
pub record NonceStore (S : Type 0) : Type 0 where
  pub seen : S → Value → Value → Bool
  pub record_nonce : S → Value → Value → S
  pub consume : S → Value → Value → Bool × S

-- What the clients rely on: a recorded pair is seen from then on; `consume` answers true only for
-- a pair that is not spent, spends it, and nothing makes a spent pair unspent.
pub record IsNonceStore {S : Type 0} (store : NonceStore S) : Type 0 where
  pub spent : S → Value → Value → Bool
  pub seen-record_nonce : (s : S) (r n : Value) → store.seen (store.record_nonce s r n) r n ≡ true
  pub seen_kept :
      (s : S) (r n r' n' : Value)
      → store.seen s r' n' ≡ true
      → store.seen (store.record_nonce s r n) r' n' ≡ true
  pub consume-spent : (s : S) (r n : Value) → (store.consume s r n).0 ≡ not (spent s r n)
  pub spent-consume : (s : S) (r n : Value) → spent (store.consume s r n).1 r n ≡ true
  pub spent_kept :
      (s : S) (r n r' n' : Value)
      → spent s r' n' ≡ true
      → spent (store.consume s r n).1 r' n' ≡ true
  pub spent_kept_record :
      (s : S) (r n r' n' : Value)
      → spent s r' n' ≡ true
      → spent (store.record_nonce s r n) r' n' ≡ true
  pub seen_kept_consume :
      (s : S) (r n r' n' : Value)
      → store.seen s r' n' ≡ true
      → store.seen (store.consume s r n).1 r' n' ≡ true

-- One set for both methods: `consume` answers true exactly for a pair that is not seen, and after
-- `record` as after `consume` a pair is seen exactly if it was, or matches the given one.
pub record IsShared {S : Type 0} (store : NonceStore S)
    (matches : Value → Value → Value → Value → Bool) : Type 0 where
  pub consume-seen : (s : S) (r n : Value) → (store.consume s r n).0 ≡ not (store.seen s r n)
  pub seen-consume :
      (s : S) (r n r' n' : Value)
      → store.seen (store.consume s r n).1 r' n' ≡ (store.seen s r' n' || matches r n r' n')
  pub seen-record_nonce :
      (s : S) (r n r' n' : Value)
      → store.seen (store.record_nonce s r n) r' n' ≡ (store.seen s r' n' || matches r n r' n')

-- Two sets: `consume` answers true exactly for a pair that is not spent and spends just this pair,
-- `record` shows just the given pair, and neither method touches the other's set.
pub record IsSeparate {S : Type 0} (store : NonceStore S) (spent : S → Value → Value → Bool)
    (matches : Value → Value → Value → Value → Bool) : Type 0 where
  pub consume-spent : (s : S) (r n : Value) → (store.consume s r n).0 ≡ not (spent s r n)
  pub spent-consume :
      (s : S) (r n r' n' : Value)
      → spent (store.consume s r n).1 r' n' ≡ (spent s r' n' || matches r n r' n')
  pub spent-record_nonce :
      (s : S) (r n r' n' : Value) → spent (store.record_nonce s r n) r' n' ≡ spent s r' n'
  pub seen-record_nonce :
      (s : S) (r n r' n' : Value)
      → store.seen (store.record_nonce s r n) r' n' ≡ (store.seen s r' n' || matches r n r' n')
  pub seen-consume :
      (s : S) (r n r' n' : Value) → store.seen (store.consume s r n).1 r' n' ≡ store.seen s r' n'
