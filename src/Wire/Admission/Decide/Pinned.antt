-- ===== src/Wire/Admission/Decide/Pinned.antt =====
-- What a signed governance block that passes guarantees.
use a2a_compliance.Host.{Host}
use a2a_compliance.Prelude.{
  Bool, Option, String, if◌then◌else◌, not, none, ◌≡◌, some, true, ◌==◌, false, sym, ◌≢◌, refl,
  arith, eq_iff, ap, is_empty, [], is_empty-eq-true,
}
use a2a_compliance.Governance.{GovernanceBlock}
use a2a_compliance.Wire.Admission.{GovernanceFinding, signer_unknown, block_digest_mismatch}
use a2a_compliance.Governance.Signed.{SignedGovernanceBlock, block_digest, subject_fields}
use a2a_compliance.Wire.Admission.Decide.{
  GovernanceCheck, block_fails, binding_check, block_passes, block_signature, block_raises,
  governance_block_findings,
}
use a2a_compliance.Wire.Trust.{TrustStore, TrustBinding, authorizes_type, authorizes_role}
use a2a_compliance.Json.{str, put}
use a2a_compliance.Wire.Signing.{verify_signature}

pub record IsPinned (host : Host) (g : GovernanceBlock) (b : SignedGovernanceBlock)
    (maker_id : String) (store : TrustStore) (role : String) (digest : String) : Type 0 where
  pub canonical : block_digest host g ≡ some digest
  pub matches : b.digest ≡ digest
  pub binding : TrustBinding
  pub resolved : store (str b.signer_key_id) ≡ some binding
  pub for_type : authorizes_type binding "GovernanceBlock" ≡ true
  pub for_role : authorizes_role binding (str role) ≡ true
  pub author : binding.identity ≡ some b.signer_identity
  pub distinct : b.signer_identity ≢ maker_id
  pub signed :
      verify_signature host
        (put "signature"
          (str b.signature)
          (subject_fields b.digest b.signer_key_id b.signer_identity))
        binding.public_key
      ≡ []

two :
    (a b : Bool) (x y : GovernanceFinding) (rest : GovernanceCheck) (o : Option String)
    → (if not a then block_fails x else if not b then block_fails y else rest) ≡ block_passes o
    → (a ≡ true) × (b ≡ true) × (rest ≡ block_passes o)
two true true x y rest o h = (refl, refl, h)
two true false x y rest o h = cc
two false b x y rest o h = cc

signature_part :
    (b : Bool) (e : GovernanceFinding) (digest : String) (o : Option String)
    → (if not b then block_fails e else block_passes (some digest)) ≡ block_passes o
    → (b ≡ true) × (o ≡ some digest)
signature_part true e digest o h = let same : some digest ≡ o = cc in (refl, sym same)
signature_part false e digest o h = cc

-- The author's part: the identity of the key is the author's, and not the maker's.
author_part :
    (identity : Option String) (signer maker : String) (x y z : GovernanceFinding)
    (rest : GovernanceCheck) (o : Option String)
    → (elim identity [
      | none ↦ block_fails x
      | some id ↦
          if not (signer == id) then block_fails y else if id == maker then block_fails z else rest
    ])
      ≡ block_passes o
    → (identity ≡ some signer) × (signer ≢ maker) × (rest ≡ block_passes o)
author_part none signer maker x y z rest o h = absurd (cc)
author_part (some id) signer maker x y z rest o h =
    let same : signer ≡ id = ground (arith, eq_iff signer id) in
    (ap some (sym same), λ e. ground (arith, eq_iff id maker, eq_iff signer id), ground arith)

module _ (host : Host) (g : GovernanceBlock) (b : SignedGovernanceBlock) (maker_id : String)
    (store : TrustStore) (role : String) where
  bound_to :
      (digest : String) (binding : TrustBinding) (o : Option String)
      → block_digest host g ≡ some digest
      → b.digest ≡ digest
      → store (str b.signer_key_id) ≡ some binding
      → binding_check host b digest maker_id role binding ≡ block_passes o
      → (o ≡ some digest) × IsPinned host g b maker_id store role digest
  unfolding binding_check block_signature
  bound_to digest binding o canonical matches resolved h =
      let (for_type, for_role, h₁) =
        two (authorizes_type binding "GovernanceBlock") (authorizes_role binding (str role)) _ _ _ o
          h in
      let (author, distinct, h₂) =
        author_part binding.identity b.signer_identity maker_id _ _ _ _ o h₁ in
      let (signed, pinned) =
        signature_part
          (is_empty (
            verify_signature host
              (put "signature" (str b.signature)
                (subject_fields b.digest b.signer_key_id b.signer_identity))
              binding.public_key))
          _ digest o h₂ in
      (
        pinned,
        record {
          canonical = canonical;
          matches = matches;
          binding = binding;
          resolved = resolved;
          for_type = for_type;
          for_role = for_role;
          author = author;
          distinct = distinct;
          signed = is_empty-eq-true _ signed;
        },
      )

  resolved_or_unknown :
      (digest : String) (found : Option TrustBinding) (o : Option String)
      → block_digest host g ≡ some digest
      → b.digest ≡ digest
      → store (str b.signer_key_id) ≡ found
      → (elim found [
        | none ↦ block_fails signer_unknown
        | some binding ↦ binding_check host b digest maker_id role binding
      ])
        ≡ block_passes o
      → (o ≡ some digest) × IsPinned host g b maker_id store role digest
  resolved_or_unknown digest none o canonical matches found h = absurd (cc)
  resolved_or_unknown digest (some binding) o canonical matches found h =
      bound_to digest binding o canonical matches found h

  digest_matches :
      (digest : String) (rest : GovernanceCheck) (o : Option String)
      → (if not (b.digest == digest) then block_fails block_digest_mismatch else rest)
        ≡ block_passes o
      → (b.digest ≡ digest) × (rest ≡ block_passes o)
  digest_matches digest rest o h = (ground (arith, eq_iff b.digest digest), ground arith)

  after_digest :
      (found : Option String) (o : Option String)
      → block_digest host g ≡ found
      → (elim found [
        | none ↦ block_raises
        | some digest ↦
            let resolved : GovernanceCheck = elim (store (str b.signer_key_id)) [
              | none ↦ block_fails signer_unknown
              | some binding ↦ binding_check host b digest maker_id role binding
            ] in
            if not (b.digest == digest) then block_fails block_digest_mismatch else resolved
      ])
        ≡ block_passes o
      → (digest : String) × (o ≡ some digest) × IsPinned host g b maker_id store role digest
  after_digest none o canonical h = absurd (cc)
  after_digest (some digest) o canonical h =
      let (matches, rest) = digest_matches digest _ o h in
      let (e, pinned) =
        resolved_or_unknown digest (store (str b.signer_key_id)) o canonical matches refl rest in
      (digest, e, pinned)

  -- A signed block passes only if the block in use has the digest that was signed, the key is
  -- bound to governance blocks and to the author's role, its identity is the author named and not
  -- the maker, and the signature verifies; the pinned digest is the block's.
  pub governance_block_findings-IsPinned :
      (o : Option String)
      → governance_block_findings host g (some b) maker_id store role ≡ block_passes o
      → (digest : String) × (o ≡ some digest) × IsPinned host g b maker_id store role digest
  unfolding governance_block_findings
  governance_block_findings-IsPinned o h = after_digest (block_digest host g) o refl h
