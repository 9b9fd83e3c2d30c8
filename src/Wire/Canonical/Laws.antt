-- ===== src/Wire/Canonical/Laws.antt =====
-- `subject` forgets the digest and the signature of an object.
use a2a_compliance.Prelude.{
  String, Bool, ◌==◌, ◌||◌, ◌≡◌, true, ap, Bool-cases, inl, ◌∙◌, eq_iff, refl, sym, inr,
}
use a2a_compliance.Wire.Canonical.{subject, subject_digest, digest_hex}
use a2a_compliance.Host.{Host}
use a2a_compliance.Json.{Value, Fields, put, field, obj, end}

-- Whether a key is left out of the subject.
abbrev pub is_envelope_key : String → Bool
is_envelope_key k = k == "signature" || k == "subject_digest"

pub subject-put :
    (k : String) (v : Value) (d : Fields)
    → is_envelope_key k ≡ true
    → subject (put k v d) ≡ subject d
unfolding subject
subject-put k v end h = rw h refl
subject-put k v (field j w d) h =
    let rest = subject-put k v d h in
    elim (Bool-cases (j == k)) [
      | inl same ↦
          let e : j ≡ k = (eq_iff j k).0 same in
          let h' : is_envelope_key j ≡ true = rw (sym e) at h in rw (same, h, h') refl
      | inr other ↦ rw (other, rest) refl
    ]

module _ (host : Host) where
  -- Signing an object with its digest does not change its digest.
  pub subject_digest-signed :
      (d : Fields) (digest signature : Value)
      → subject_digest host (put "signature" signature (put "subject_digest" digest d))
        ≡ subject_digest host d
  unfolding subject_digest
  subject_digest-signed d digest signature =
      ap (λ s. digest_hex host (obj s))
        (subject-put "signature" signature (put "subject_digest" digest d) refl
          ∙ subject-put "subject_digest" digest d refl)
