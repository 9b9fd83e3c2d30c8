-- ===== src/Wire/Checks/Laws.antt =====
-- What each check guarantees when it reports nothing.
use a2a_compliance.Json.{Value, Fields, is_str, get, str, null, get_in, truthy}
use a2a_compliance.Host.{Host}
use a2a_compliance.Prelude.{
  String, ◌≡◌, true, [], some, Option-cases, ap, inl, eq_iff, inr, arith, map-eq-nil, ℕ, false,
  append-eq-nil,
}
use a2a_compliance.Wire.Trust.{
  TrustStore, TrustBinding, authorizes_type, authorizes_role, is_identity, RevocationStore,
}
use a2a_compliance.Wire.Checks.{
  trust_findings, binding_findings, bad_signature, approver_findings, revoked_finding,
  revocation_findings, permit_digest,
}
use a2a_compliance.Wire.Signing.{verify_signature}

-- A value equals a text exactly if the test says so.
pub is_str-eq : (v : Value) (s : String) → is_str v s ≡ true → v ≡ str s
is_str-eq (str t) s h = ap str ((eq_iff t s).0 h)
is_str-eq null s h = cc
is_str-eq _ s h = cc

-- The trust that a key carries for an object of a type.
pub record IsTrusted (host : Host) (d : Fields) (obj_type : String) (store : TrustStore)
    : Type 0 where
  pub binding : TrustBinding
  pub resolved : store (get "key_id" d) ≡ some binding
  pub for_type : authorizes_type binding obj_type ≡ true
  pub signed : verify_signature host d binding.public_key ≡ []
  pub for_role : obj_type ≡ "StageReceipt" → authorizes_role binding (get "role" d) ≡ true
  pub for_issuer : obj_type ≡ "StageReceipt" → is_identity binding (get "issuer" d) ≡ true

module _ (host : Host) (d : Fields) (obj_type : String) where
  binding_findings-IsTrusted :
      (store : TrustStore) (binding : TrustBinding)
      → store (get "key_id" d) ≡ some binding
      → binding_findings host d obj_type (get "key_id" d) binding ≡ []
      → IsTrusted host d obj_type store
  unfolding binding_findings
  binding_findings-IsTrusted store binding resolved h = record {
    binding = binding;
    resolved = resolved;
    for_type = ground arith;
    signed = map-eq-nil bad_signature (verify_signature host d binding.public_key) (ground arith);
    for_role = λ e. ground (arith, eq_iff obj_type "StageReceipt");
    for_issuer = λ e. ground (arith, eq_iff obj_type "StageReceipt");
  }

  -- With no finding the key resolves, is bound to the type (to the role and the issuer of a stage
  -- receipt too), and the signature verifies under it.
  pub trust_findings-IsTrusted :
      (store : TrustStore)
      → trust_findings host d obj_type store ≡ []
      → IsTrusted host d obj_type store
  unfolding trust_findings
  trust_findings-IsTrusted store h = elim (Option-cases (store (get "key_id" d))) [
    | inl unknown ↦ absurd (ground arith)
    | inr (binding, resolved) ↦ binding_findings-IsTrusted store binding resolved (ground arith)
  ]

-- The signing key speaks for a human, and for the very person that the receipt names.
pub record IsHumanKey (d : Fields) (human_role : String) (binding : TrustBinding) : Type 0 where
  pub human : authorizes_role binding (str human_role) ≡ true
  pub names_approver :
      (i : String) × (binding.identity ≡ some i) × (get_in "id" (get "approver" d) ≡ str i)

identity_named :
    (b : TrustBinding) (v : Value)
    → is_identity b v ≡ true
    → (i : String) × (b.identity ≡ some i) × (v ≡ str i)
identity_named b v h = elim (Option-cases b.identity) [
  | inl nobody ↦ absurd (ground arith)
  | inr (i, e) ↦ (i, e, is_str-eq v i (rw e at h))
]

pub approver_findings-IsHumanKey :
    (d : Fields) (human_role : String) (key_id : Value) (binding : TrustBinding)
    → approver_findings d human_role key_id binding ≡ []
    → IsHumanKey d human_role binding
unfolding approver_findings
approver_findings-IsHumanKey d human_role key_id binding h = record {
  human = ground arith;
  names_approver = identity_named binding (get_in "id" (get "approver" d)) (ground arith);
}

-- An object is unrevoked: no revocation of its key, its run or its action is in force.
pub record IsUnrevoked (d : Fields) (store : RevocationStore) (at : ℕ) : Type 0 where
  pub key_valid : (k : String) → get "key_id" d ≡ str k → store "key" (str k) at ≡ false
  pub run_valid : (r : String) → get "run_id" d ≡ str r → store "run" (str r) at ≡ false
  pub action_valid :
      (a : String)
      → truthy (get "action_digest" d) ≡ true
      → get "action_digest" d ≡ str a
      → store "permit" (str a) at ≡ false
  pub approval_valid :
      (a : String)
      → truthy (get "action_digest" d) ≡ false
      → get "permitted_action_digest" d ≡ str a
      → store "permit" (str a) at ≡ false

not_revoked_str :
    (store : RevocationStore) (at : ℕ) (t s : String)
    → revoked_finding store at t (str s) ≡ []
    → store t (str s) at ≡ false
unfolding revoked_finding
not_revoked_str store at t s h = ground arith

not_revoked :
    (store : RevocationStore) (at : ℕ) (t : String) (v : Value) (s : String)
    → revoked_finding store at t v ≡ []
    → v ≡ str s
    → store t (str s) at ≡ false
not_revoked store at t v s h e = not_revoked_str store at t s (rw e at h)

pub revocation_findings-IsUnrevoked :
    (d : Fields) (obj_type : String) (store : RevocationStore) (at : ℕ)
    → revocation_findings d obj_type store at ≡ []
    → IsUnrevoked d store at
unfolding revocation_findings
revocation_findings-IsUnrevoked d obj_type store at h =
    let (key, h₁) = append-eq-nil _ _ h in
    let (run, h₂) = append-eq-nil _ _ h₁ in
    let permit : revoked_finding store at "permit" (permit_digest d) ≡ [] =
      (append-eq-nil _ _ h₂).0 in
    record {
      key_valid = λ k e. not_revoked store at "key" (get "key_id" d) k key e;
      run_valid = λ r e. not_revoked store at "run" (get "run_id" d) r run e;
      action_valid =
          λ a t e. not_revoked store at "permit" (get "action_digest" d) a (rw t at permit) e;
      approval_valid = λ a t e.
          not_revoked store at "permit" (get "permitted_action_digest" d) a (rw t at permit) e;
    }
