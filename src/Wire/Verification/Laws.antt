-- ===== src/Wire/Verification/Laws.antt =====
-- What an object that `verify` accepts has been checked for.
use mathlib.Core.Option
use a2a_compliance.Host.{Host}
use a2a_compliance.Wire.Checks.{
  Ports, all_wire_types, parse_datetime, reference, stage_receipt_role_findings, nonce_replay,
  trust_findings, VerificationError, unknown_type, schema_error, not_an_object,
}
use a2a_compliance.Json.{Fields, str, get, obj, Value, null}
use a2a_compliance.Prelude.{
  String, contains, Bool, ◌≡◌, true, some, [], Option-cases, inl, ℕ, inr, ◌<◌, is_none, is_empty,
  false, if◌then◌else◌, ◌==◌, arith, Option, append-eq-nil, ap, is_empty-eq-true, sym, none, ◌∷◌,
  refl, map-eq-nil, List, not,
}
use a2a_compliance.Wire.Verification.{
  dict_findings, shape_findings, digest_findings, expiry_findings, store_findings, revocation_part,
  content_findings, verify, findings,
}
use a2a_compliance.Wire.Canonical.{subject_digest}
use a2a_compliance.Wire.Trust.{TrustStore, RevocationStore}
use a2a_compliance.Wire.Checks.Laws.{
  IsTrusted, IsUnrevoked, trust_findings-IsTrusted, revocation_findings-IsUnrevoked, is_str-eq,
}
use mathlib.Core.Option.{some-injective}

-- What acceptance as an object of a type stands for, at given ports.
pub record IsAccepted (host : Host) (ports : Ports) (d : Fields) (obj_type : String) : Type 0 where
  pub known : contains all_wire_types obj_type ≡ true
  pub typed : get "type" d ≡ str obj_type
  pub schema_valid : host.schema_errors obj_type (obj d) ≡ []
  pub digest_bound : Option.map str (subject_digest host d) ≡ some (get "subject_digest" d)
  pub unexpired :
      (e : ℕ) × (parse_datetime host (get "expires_at" d) ≡ some e) × (reference ports < e)
  pub trusted :
      (store : TrustStore) → ports.trust_store ≡ some store → IsTrusted host d obj_type store
  pub unrevoked :
      (store : RevocationStore)
      → ports.revocation_store ≡ some store
      → IsUnrevoked d store (reference ports)

unset {ℓ} : {A : Type ℓ} (b : Bool) (x : A) → (if b then x ∷ [] else []) ≡ [] → b ≡ false
unset true x h = cc
unset false x h = refl

unless {ℓ} : {A : Type ℓ} (b : Bool) (x : A) → (if b then [] else x ∷ []) ≡ [] → b ≡ true
unless true x h = refl
unless false x h = cc

-- The last three parts of the findings, with the parts before them.
pub record Parts (host : Host) (ports : Ports) (human_role : String) (obj_type : String)
    (d : Fields) : Type 0 where
  shape : shape_findings host obj_type d ≡ []
  canonical : is_none (subject_digest host d) ≡ false
  digest : digest_findings host d ≡ []
  expiry : expiry_findings host (reference ports) d ≡ []
  stage : (if obj_type == "StageReceipt" then stage_receipt_role_findings d else []) ≡ []
  trust : store_findings host ports.trust_store human_role obj_type d ≡ []
  revocation : revocation_part host ports.revocation_store (reference ports) obj_type d ≡ []

module _ (host : Host) (ports : Ports) (human_role obj_type : String) (d : Fields) where
  -- `dict_findings` reports nothing only where it went through to the last part.
  dict_findings_through :
      (replayed : Bool)
      → dict_findings host ports human_role replayed obj_type d ≡ []
      → (is_empty (shape_findings host obj_type d) ≡ true)
        × (is_none (subject_digest host d) ≡ false)
        × (content_findings host ports human_role replayed obj_type d ≡ [])
  unfolding dict_findings
  dict_findings_through replayed h = ground arith

  pub dict_findings-Parts :
      (replayed : Bool)
      → dict_findings host ports human_role replayed obj_type d ≡ []
      → Parts host ports human_role obj_type d × (replayed ≡ false)
  unfolding content_findings
  dict_findings-Parts replayed h =
      let (good, canonical, content) = dict_findings_through replayed h in
      let (digest, h₁) = append-eq-nil _ _ content in
      let (expiry, h₂) = append-eq-nil _ _ h₁ in
      let (stage, h₃) = append-eq-nil _ _ h₂ in
      let (replay, h₄) = append-eq-nil _ _ h₃ in
      let (trust, revocation) = append-eq-nil _ _ h₄ in
      (
        record {
          shape = is_empty-eq-true _ good;
          canonical = canonical;
          digest = digest;
          expiry = expiry;
          stage = stage;
          trust = trust;
          revocation = revocation;
        },
        unset replayed nonce_replay replay,
      )

  digest_findings-bound :
      is_none (subject_digest host d) ≡ false
      → digest_findings host d ≡ []
      → Option.map str (subject_digest host d) ≡ some (get "subject_digest" d)
  unfolding digest_findings
  digest_findings-bound c h = elim (Option-cases (subject_digest host d)) [
    | inl failed ↦ absurd (ground arith)
    | inr (digest, e) ↦
        rw e (ap some (sym (is_str-eq (get "subject_digest" d) digest (ground arith))))
  ]

  expiry_findings-later :
      (at : ℕ)
      → expiry_findings host at d ≡ []
      → (e : ℕ) × (parse_datetime host (get "expires_at" d) ≡ some e) × (at < e)
  unfolding expiry_findings
  expiry_findings-later at h = elim (Option-cases (parse_datetime host (get "expires_at" d))) [
    | inl failed ↦ absurd (ground arith)
    | inr (e, p) ↦ (e, p, ground arith)
  ]

  store_findings-IsTrusted :
      (o : Option TrustStore) (store : TrustStore)
      → store_findings host o human_role obj_type d ≡ []
      → o ≡ some store
      → IsTrusted host d obj_type store
  unfolding store_findings
  store_findings-IsTrusted none store h e = cc
  store_findings-IsTrusted (some s) store h e =
      let same_store : s ≡ store = some-injective s store e in
      let trust : trust_findings host d obj_type s ≡ [] = (append-eq-nil _ _ h).0 in
      trust_findings-IsTrusted host d obj_type store (rw same_store at trust)

  revocation_part-IsUnrevoked :
      (o : Option RevocationStore) (store : RevocationStore) (at : ℕ)
      → revocation_part host o at obj_type d ≡ []
      → o ≡ some store
      → IsUnrevoked d store at
  unfolding revocation_part
  revocation_part-IsUnrevoked none store at h e = cc
  revocation_part-IsUnrevoked (some s) store at h e =
      let same_store : s ≡ store = some-injective s store e in
      revocation_findings-IsUnrevoked d obj_type store at (rw same_store at h)

  dict_findings-IsAccepted :
      (replayed : Bool)
      → contains all_wire_types obj_type ≡ true
      → dict_findings host ports human_role replayed obj_type d ≡ []
      → IsAccepted host ports d obj_type
  unfolding shape_findings
  dict_findings-IsAccepted replayed known h =
      let (parts, _) = dict_findings-Parts replayed h in
      let (typed, schema) = append-eq-nil _ _ parts.shape in
      record {
        known = known;
        typed = is_str-eq (get "type" d) obj_type (unless _ _ typed);
        schema_valid = map-eq-nil schema_error _ schema;
        digest_bound = digest_findings-bound parts.canonical parts.digest;
        unexpired = expiry_findings-later (reference ports) parts.expiry;
        trusted = λ store e. store_findings-IsTrusted ports.trust_store store parts.trust e;
        unrevoked = λ store e.
            revocation_part-IsUnrevoked ports.revocation_store store (reference ports)
              parts.revocation e;
      }

pub gate :
    (b : Bool) (e : VerificationError) (rest : List VerificationError)
    → (if not b then e ∷ [] else rest) ≡ []
    → (b ≡ true) × (rest ≡ [])
gate true e rest h = (refl, h)
gate false e rest h = cc

-- The conclusion of acceptance, about a value.
abbrev pub Accepts : Host → Ports → Value → String → Type 0
Accepts host ports v obj_type = (d : Fields) × (v ≡ obj d) × IsAccepted host ports d obj_type

module _ (host : Host) (ports : Ports) (human_role obj_type : String) (replayed : Bool) where
  findings-IsAccepted :
      (v : Value)
      → findings host ports human_role replayed v obj_type ≡ []
      → Accepts host ports v obj_type
  unfolding findings
  findings-IsAccepted (obj d) h =
      let (known, inner) =
        gate (contains all_wire_types obj_type) (unknown_type obj_type)
          (dict_findings host ports human_role replayed obj_type d) h in
      (d, refl, dict_findings-IsAccepted host ports human_role obj_type d replayed known inner)
  findings-IsAccepted null h = absurd (
      cc (
        (gate (contains all_wire_types obj_type) (unknown_type obj_type) (not_an_object ∷ []) h).1))
  findings-IsAccepted _ h = absurd (
      cc (
        (gate (contains all_wire_types obj_type) (unknown_type obj_type) (not_an_object ∷ []) h).1))

-- An object that `verify` accepts is a dict of a known type that carries that type; the schema
-- accepts it; its `subject_digest` is the digest of its canonical subject; it expires after the
-- reference time; with a trust store its key is bound to the type (for a stage receipt also to the
-- role and the issuer) and the signature verifies under it; with a revocation store its key, its
-- run and its action are not revoked.
pub verify-IsAccepted :
    (host : Host) (ports : Ports) (v : Value) (obj_type : String)
    → verify host ports v obj_type ≡ []
    → Accepts host ports v obj_type
unfolding verify
verify-IsAccepted host ports v obj_type h =
    findings-IsAccepted host ports "human" obj_type false v h
