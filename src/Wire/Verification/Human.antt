-- ===== src/Wire/Verification/Human.antt =====
-- `verify_human_approval`: what an approved receipt guarantees.
use a2a_compliance.Host.{Host}
use a2a_compliance.Wire.Checks.{Ports, approver_findings}
use a2a_compliance.Prelude.{
  String, Option, ◌≡◌, some, [], true, false, Option-cases, inl, arith, inr, sym, is_empty-eq-true,
  none, ◌≢◌, refl,
}
use a2a_compliance.Wire.Verification.{
  identity_check, approved, is_sender, verify, verify_human_approval,
}
use a2a_compliance.Wire.Trust.{TrustStore, TrustBinding, authorizes_role}
use a2a_compliance.Json.{Fields, Value, obj, get, str, get_in}
use a2a_compliance.Wire.Verification.Laws.{IsAccepted, verify-IsAccepted}
use a2a_compliance.Wire.Checks.Laws.{approver_findings-IsHumanKey}
use mathlib.Core.Option.{some-injective}

-- What a verified approval by an identity stands for.
pub record IsApproval (host : Host) (ports : Ports) (store : TrustStore) (sender : Option String)
    (human_role : String) (v : Value) (identity : String) : Type 0 where
  pub receipt : Fields
  pub is_receipt : v ≡ obj receipt
  pub accepted :
      IsAccepted host (record ports { trust_store = some store }) receipt "HumanApprovalReceipt"
  pub binding : TrustBinding
  pub resolved : store (get "key_id" receipt) ≡ some binding
  pub human : authorizes_role binding (str human_role) ≡ true
  pub bound : binding.identity ≡ some identity
  pub approver : get_in "id" (get "approver" receipt) ≡ str identity
  pub not_sender : is_sender sender identity ≡ false

approved-injective : (i j : String) → approved i ≡ approved j → i ≡ j
approved-injective i j h = cc

-- The part behind the call of `verify`, on an identity that the binding has.
identity_check-approved :
    (d : Fields) (role : String) (sender : Option String) (key_id : Value) (b : TrustBinding)
    (i : String)
    → identity_check d role sender key_id (some b) ≡ approved i
    → (approver_findings d role key_id b ≡ [])
      × (b.identity ≡ some i)
      × (is_sender sender i ≡ false)
unfolding identity_check
identity_check-approved d role sender key_id b i h = elim (Option-cases b.identity) [
  | inl nobody ↦ absurd (ground arith)
  | inr (j, e) ↦ let same : j ≡ i = ground arith in (ground arith, rw (sym same) e, ground arith)
]

unknown_key :
    (d : Fields) (role : String) (sender : Option String) (key_id : Value) (i : String)
    → identity_check d role sender key_id none ≢ approved i
unfolding identity_check
unknown_key d role sender key_id i h = cc

module _ (host : Host) (ports : Ports) (store : TrustStore) (sender : Option String)
    (human_role : String) where
  approved_receipt :
      (d : Fields) (i : String)
      → verify host (record ports { trust_store = some store }) (obj d) "HumanApprovalReceipt" ≡ []
      → identity_check d human_role sender (get "key_id" d) (store (get "key_id" d)) ≡ approved i
      → IsApproval host ports store sender human_role (obj d) i
  approved_receipt d i h c =
      let ports' = record ports { trust_store = some store } in
      let (d', e, accepted') = verify-IsAccepted host ports' (obj d) "HumanApprovalReceipt" h in
      let same : d' ≡ d = cc in
      let accepted : IsAccepted host ports' d "HumanApprovalReceipt" = rw same at accepted' in
      elim (Option-cases (store (get "key_id" d))) [
        | inl unknown ↦
            absurd (unknown_key d human_role sender (get "key_id" d) i (rw unknown at c))
        | inr (b, resolved) ↦
            let (quiet, bound, not_sender) =
              identity_check-approved d human_role sender (get "key_id" d) b i (rw resolved at c) in
            let key = approver_findings-IsHumanKey d human_role (get "key_id" d) b quiet in
            let (j, ej, names) = key.names_approver in
            let same_id : j ≡ i = some-injective j i (cc) in
            record {
              receipt = d;
              is_receipt = refl;
              accepted = accepted;
              binding = b;
              resolved = resolved;
              human = key.human;
              bound = bound;
              approver = rw same_id at names;
              not_sender = not_sender;
            }
      ]

  -- An approval that verifies is an accepted `HumanApprovalReceipt` whose signing key is bound to
  -- a human role and to the very identity that the receipt names as its approver, and that
  -- identity is not the sender.
  pub verify_human_approval-IsApproval :
      (v : Value) (i : String)
      → verify_human_approval host ports store sender human_role v ≡ approved i
      → IsApproval host ports store sender human_role v i
  unfolding verify_human_approval
  verify_human_approval-IsApproval (obj d) i h =
      approved_receipt d i (is_empty-eq-true _ (ground arith)) (ground arith)
  verify_human_approval-IsApproval _ i h = absurd (ground arith)
