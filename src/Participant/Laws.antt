-- ===== src/Participant/Laws.antt =====
-- participant.py: what an envelope that authenticated mode honours has passed.
use mathlib.Core.Option
use a2a_compliance.Participant.{
  Maker, envelope_rejection, binding_rejection, freshness_rejection, envelope_object_type,
  authorize_sender, not_authorized,
}
use a2a_compliance.Host.{Host}
use a2a_compliance.Prelude.{
  Option, ◌≡◌, none, Bool, some, refl, ℕ, bar-eq-none, not, leb, gate-eq-none, false, ◌||◌, true,
  Option-cases, inl, inr, is_empty, [], is_empty-eq-true,
}
use a2a_compliance.Wire.Trust.{
  TrustStore, TrustBinding, authorizes_type, authorizes_role, is_identity,
}
use a2a_compliance.Json.{Fields, get, truthy}
use a2a_compliance.Envelope.{Message}
use a2a_compliance.Wire.Checks.{parse_datetime}
use a2a_compliance.Wire.Signing.{verify_signature}

-- The conditions on an envelope, at the nonce store's answer.
pub record IsAuthentic (host : Host) (maker : Maker) (trust : TrustStore) (d : Fields)
    (msg : Message) (seen : Bool) : Type 0 where
  pub binding : TrustBinding
  pub resolved : trust (get "key_id" d) ≡ some binding
  pub for_envelopes : authorizes_type binding envelope_object_type ≡ true
  pub for_role : authorizes_role binding msg.from_party.role ≡ true
  pub by_sender : is_identity binding msg.from_party.actor ≡ true
  pub verified : verify_signature host d binding.public_key ≡ []
  pub expires_at : ℕ
  pub expiry : parse_datetime host (get "expires_at" d) ≡ some expires_at
  pub in_time : leb expires_at maker.clock ≡ false
  pub has_nonce : truthy (get "nonce" d) ≡ true
  pub fresh : seen ≡ false
  pub authorized :
      authorize_sender msg.from_party.role msg.verb maker.session_id maker.roster ≡ none

map-eq-none {ℓ κ} :
    {A : Type ℓ} {B : Type κ} (f : A → B) (o : Option A) → Option.map f o ≡ none → o ≡ none
map-eq-none f none h = refl
map-eq-none f (some a) h = cc

module _ (host : Host) (maker : Maker) (d : Fields) (msg : Message) (seen : Bool) where
  freshness :
      freshness_rejection host maker d msg seen ≡ none
      → (t : ℕ) × (parse_datetime host (get "expires_at" d) ≡ some t)
        × (leb t maker.clock ≡ false)
        × (truthy (get "nonce" d) ≡ true)
        × (seen ≡ false)
        × (authorize_sender msg.from_party.role msg.verb maker.session_id maker.roster ≡ none)
  unfolding freshness_rejection
  freshness h = elim (Option-cases (parse_datetime host (get "expires_at" d))) [
    | inl e ↦ (let h' = rw (e, freshness_rejection) at h in cc)
    | inr (t, e) ↦
        (let h' = rw (e, freshness_rejection) at h in
          let (late, a) = bar-eq-none (leb t maker.clock) _ _ h' in
          let (nonce, b) = gate-eq-none (truthy (get "nonce" d)) _ _ a in
          let (fresh, c) = bar-eq-none seen _ _ b in
          (t, e, late, nonce, fresh, map-eq-none not_authorized _ c))
  ]

  binding-IsAuthentic :
      (trust : TrustStore) (b : TrustBinding)
      → trust (get "key_id" d) ≡ some b
      → binding_rejection host maker d msg seen b ≡ none
      → IsAuthentic host maker trust d msg seen
  unfolding binding_rejection
  binding-IsAuthentic trust b resolved h =
      let (ty, a) = gate-eq-none (authorizes_type b envelope_object_type) _ _ h in
      let (role, c) = gate-eq-none (authorizes_role b msg.from_party.role) _ _ a in
      let (sender, e) = gate-eq-none (is_identity b msg.from_party.actor) _ _ c in
      let (crypto, f) = gate-eq-none maker.cryptography _ _ e in
      let (signed, g) = gate-eq-none (is_empty (verify_signature host d b.public_key)) _ _ f in
      let (t, expiry, late, nonce, fresh, auth) = freshness g in
      record {
        binding = b;
        resolved = resolved;
        for_envelopes = ty;
        for_role = role;
        by_sender = sender;
        verified = is_empty-eq-true (verify_signature host d b.public_key) signed;
        expires_at = t;
        expiry = expiry;
        in_time = late;
        has_nonce = nonce;
        fresh = fresh;
        authorized = auth;
      }

  pub envelope_rejection-IsAuthentic :
      (trust : TrustStore)
      → envelope_rejection host maker trust d msg seen ≡ none
      → IsAuthentic host maker trust d msg seen
  unfolding envelope_rejection
  envelope_rejection-IsAuthentic trust h =
      let (signed, a) =
        bar-eq-none (not (truthy (get "signature" d)) || not (truthy (get "key_id" d))) _ _ h in
      elim (Option-cases (trust (get "key_id" d))) [
        | inl e ↦ (let a' = rw e at a in cc)
        | inr (b, e) ↦ binding-IsAuthentic trust b e (rw e at a)
      ]

  -- The converse, with what the first test asks for.
  pub IsAuthentic-passes :
      (trust : TrustStore)
      → truthy (get "signature" d) ≡ true
      → truthy (get "key_id" d) ≡ true
      → maker.cryptography ≡ true
      → IsAuthentic host maker trust d msg seen
      → envelope_rejection host maker trust d msg seen ≡ none
  unfolding envelope_rejection binding_rejection freshness_rejection
  IsAuthentic-passes trust s k c a =
      rw (s, k, a.resolved, envelope_rejection)
        (rw
          (
            a.for_envelopes, a.for_role, a.by_sender, c, a.verified, a.expiry, binding_rejection,
            freshness_rejection,
          )
          (rw (a.in_time, a.has_nonce, a.fresh, a.authorized) refl))
