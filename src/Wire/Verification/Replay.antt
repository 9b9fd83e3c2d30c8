-- ===== src/Wire/Verification/Replay.antt =====
-- `verify` with a nonce store: what it records, and that it accepts a nonce once.
use a2a_compliance.Host.{Host}
use a2a_compliance.Wire.Checks.{Ports, all_wire_types, unknown_type, not_an_object}
use a2a_compliance.Wire.Verification.{findings, verify_once, dict_findings}
use a2a_compliance.Nonces.{NonceStore, IsNonceStore}
use a2a_compliance.Json.{Value, get_in, obj, null}
use a2a_compliance.Prelude.{
  String, List, ◌≢◌, true, ◌≡◌, ◌∷◌, [], Bool-cases, is_empty, inl, is_empty-eq-true, inr, contains,
  Bool,
}
use a2a_compliance.Wire.Verification.Laws.{gate, dict_findings-Parts}

module _ {S : Type 0} (host : Host) (ports : Ports) (store : NonceStore S) where
  -- A rejected object leaves the store as it was.
  pub verify_once-rejected :
      (v : Value) (obj_type : String) (s : S)
      → (verify_once host store ports v obj_type s).0 ≢ []
      → (verify_once host store ports v obj_type s).1 ≡ s
  unfolding verify_once
  verify_once-rejected v obj_type s h =
      let errors =
        findings host ports "human" (store.seen s (get_in "run_id" v) (get_in "nonce" v)) v
          obj_type in
      elim (Bool-cases (is_empty errors)) [
        | inl t ↦ absurd (h (is_empty-eq-true _ t))
        | inr f ↦ rw f (λ i. s)
      ]

-- A pair that the store has seen is reported.
findings-replayed :
    (host : Host) (ports : Ports) (role obj_type : String) (replayed : Bool) (v : Value)
    → replayed ≡ true
    → findings host ports role replayed v obj_type ≢ []
unfolding findings
findings-replayed host ports role obj_type replayed (obj d) seen h =
    let (known, inner) =
      gate (contains all_wire_types obj_type) (unknown_type obj_type)
        (dict_findings host ports role replayed obj_type d) h in
    let fresh = (dict_findings-Parts host ports role obj_type d replayed inner).1 in
    cc (seen, fresh)
findings-replayed host ports role obj_type replayed null seen h =
    cc ((gate (contains all_wire_types obj_type) (unknown_type obj_type) (not_an_object ∷ []) h).1)
findings-replayed host ports role obj_type replayed _ seen h =
    cc ((gate (contains all_wire_types obj_type) (unknown_type obj_type) (not_an_object ∷ []) h).1)

-- An object that is accepted leaves its pair seen.
recorded :
    {S : Type 0} (host : Host) (ports : Ports) (store : NonceStore S) (laws : IsNonceStore store)
    (v : Value) (obj_type : String) (s : S)
    → (verify_once host store ports v obj_type s).0 ≡ []
    → store.seen
        (verify_once host store ports v obj_type s).1
        (get_in "run_id" v)
        (get_in "nonce" v)
      ≡ true
unfolding verify_once
recorded host ports store laws v obj_type s h =
    rw h (laws.seen-record_nonce s (get_in "run_id" v) (get_in "nonce" v))

rejected_if_seen :
    {S : Type 0} (host : Host) (ports : Ports) (store : NonceStore S) (v : Value)
    (obj_type : String) (s : S)
    → store.seen s (get_in "run_id" v) (get_in "nonce" v) ≡ true
    → (verify_once host store ports v obj_type s).0 ≢ []
unfolding verify_once
rejected_if_seen host ports store v obj_type s h e =
    findings-replayed host ports "human" obj_type
      (store.seen s (get_in "run_id" v) (get_in "nonce" v)) v h e

-- One call of `verify` keeps a seen pair seen, whatever it answers.
seen_after :
    {S : Type 0} (host : Host) (ports : Ports) (store : NonceStore S) (laws : IsNonceStore store)
    (v : Value) (obj_type : String) (s : S) (r n : Value)
    → store.seen s r n ≡ true
    → store.seen (verify_once host store ports v obj_type s).1 r n ≡ true
unfolding verify_once
seen_after host ports store laws v obj_type s r n h =
    let errors =
      findings host ports "human" (store.seen s (get_in "run_id" v) (get_in "nonce" v)) v
        obj_type in
    elim (Bool-cases (is_empty errors)) [
      | inl t ↦ rw t (laws.seen_kept s (get_in "run_id" v) (get_in "nonce" v) r n h)
      | inr f ↦ rw f h
    ]

-- The store after a sequence of calls of `verify`, each with its own ports and type.
unfoldable pub verify_all :
    {S : Type 0} → Host → NonceStore S → List (Ports × Value × String) → S → S
verify_all host store [] s = s
verify_all host store ((ports, v, t) ∷ rest) s =
    verify_all host store rest (verify_once host store ports v t s).1

seen_after_all :
    {S : Type 0} (host : Host) (store : NonceStore S) (laws : IsNonceStore store)
    (calls : List (Ports × Value × String)) (s : S) (r n : Value)
    → store.seen s r n ≡ true
    → store.seen (verify_all host store calls s) r n ≡ true
unfolding verify_all
seen_after_all host store laws [] s r n h = h
seen_after_all host store laws ((ports, v, t) ∷ rest) s r n h =
    seen_after_all host store laws rest _ r n (seen_after host ports store laws v t s r n h)

-- Once `verify` has accepted an object with a nonce store that remembers, then after any further
-- calls of `verify` on that store every object with the same `run_id` and `nonce` is rejected,
-- of whatever type and at whatever ports.
pub verify_once-replay :
    {S : Type 0} (host : Host) (store : NonceStore S) (laws : IsNonceStore store)
    (ports ports' : Ports) (v v' : Value) (obj_type obj_type' : String)
    (calls : List (Ports × Value × String)) (s : S)
    → (verify_once host store ports v obj_type s).0 ≡ []
    → get_in "run_id" v' ≡ get_in "run_id" v
    → get_in "nonce" v' ≡ get_in "nonce" v
    → (verify_once host store ports' v' obj_type'
        (verify_all host store calls (verify_once host store ports v obj_type s).1)).0
      ≢ []
verify_once-replay host store laws ports ports' v v' obj_type obj_type' calls s h r n =
    let s₁ = verify_once host store ports v obj_type s in
    rejected_if_seen host ports' store v' obj_type' _ (
      rw r (
        rw n (
          seen_after_all host store laws calls s₁.1 (get_in "run_id" v) (get_in "nonce" v)
            (recorded host ports store laws v obj_type s h))))
