-- ===== src/Channel/Laws.antt =====
-- channel.py: what stands behind a halt that is dispatched in authenticated mode.
use a2a_compliance.Wire.Verification.{approved, HumanApproval, verify_human_approval, rejected}
use a2a_compliance.Channel.{HaltDenial}
use a2a_compliance.Channel.Approval.{
  verify_halt_approval, approval_denial, receipt_denial, spend, is_next_action,
  next_action_scope_marker, halt_approval_scopes,
}
use a2a_compliance.Wire.Verification.Human.{IsApproval, verify_human_approval-IsApproval}
use a2a_compliance.Host.{Host}
use a2a_compliance.Prelude.{
  Bool, not, ◌||◌, String, ◌≡◌, false, true, some, refl, Option, none, Bool-cases, ◌==◌, inl,
  gate-eq-none, inr, bar-eq-none, ◌&&◌,
}
use a2a_compliance.Wire.Checks.{Ports}
use a2a_compliance.Wire.Trust.{TrustStore, member}
use a2a_compliance.Nonces.{NonceStore}
use a2a_compliance.Json.{Fields, obj, get, is_str, str, truthy}
use a2a_compliance.Authority.{human_role}

-- A receipt that approves one halt, at a state of the nonce store.
pub record IsHaltApproval (host : Host) (ports : Ports) (trust : TrustStore)
    (sender digest maker : String) {S : Type 0} (store : NonceStore S) (s : S) (d : Fields)
    : Type 0 where
  pub identity : String
  pub approval : IsApproval host ports trust (some sender) human_role (obj d) identity
  pub bound : is_str (get "permitted_action_digest" d) digest ≡ true
  pub not_maker : (identity == maker) ≡ false
  pub scope_known : member halt_approval_scopes (get "scope" d) ≡ true
  pub has_run : truthy (get "run_id" d) ≡ true
  pub has_nonce : truthy (get "nonce" d) ≡ true
  pub unused : store.seen s (get "run_id" d) (get "nonce" d) ≡ false
  pub once :
      (is_next_action d && store.seen s (get "run_id" d) (str next_action_scope_marker)) ≡ false
  pub consumed : (store.consume s (get "run_id" d) (get "nonce" d)).0 ≡ true

or-not-eq-false : (a b : Bool) → (not a || not b) ≡ false → (a ≡ true) × (b ≡ true)
or-not-eq-false true true h = (refl, refl)
or-not-eq-false true false h = cc
or-not-eq-false false b h = cc

module _ (host : Host) (ports : Ports) (trust : TrustStore) (sender digest maker : String)
    {S : Type 0} (store : NonceStore S) (s : S) (d : Fields) where
  checked :
      (result : HumanApproval)
      → verify_human_approval host ports trust (some sender) human_role (obj d) ≡ result
      → approval_denial result d digest maker
          (store.seen s (get "run_id" d) (get "nonce" d))
          (store.seen s (get "run_id" d) (str next_action_scope_marker))
        ≡ none
      → (store.consume s (get "run_id" d) (get "nonce" d)).0 ≡ true
      → IsHaltApproval host ports trust sender digest maker store s d
  unfolding approval_denial receipt_denial
  checked (rejected errors) e h c = cc
  checked (approved identity) e h c =
      let (bound, a) = gate-eq-none (is_str (get "permitted_action_digest" d) digest) _ _ h in
      let (other, b) = bar-eq-none (identity == maker) _ _ a in
      let (scope, f) = gate-eq-none (member halt_approval_scopes (get "scope" d)) _ _ b in
      let (ids, g) =
        bar-eq-none (not (truthy (get "run_id" d)) || not (truthy (get "nonce" d))) _ _ f in
      let (used, k) = bar-eq-none (store.seen s (get "run_id" d) (get "nonce" d)) _ _ g in
      let (spent, l) =
        bar-eq-none
          (is_next_action d && store.seen s (get "run_id" d) (str next_action_scope_marker)) _ _
          k in
      let (run, nonce) = or-not-eq-false (truthy (get "run_id" d)) (truthy (get "nonce" d)) ids in
      record {
        identity = identity;
        approval =
            verify_human_approval-IsApproval host ports trust (some sender) human_role (obj d)
              identity e;
        bound = bound;
        not_maker = other;
        scope_known = scope;
        has_run = run;
        has_nonce = nonce;
        unused = used;
        once = spent;
        consumed = c;
      }

  spend-none :
      (o : Option HaltDenial)
      → (spend store d s o).0 ≡ none
      → (o ≡ none) × ((store.consume s (get "run_id" d) (get "nonce" d)).0 ≡ true)
  unfolding spend
  spend-none (some r) h = cc
  spend-none none h = elim (Bool-cases (store.consume s (get "run_id" d) (get "nonce" d)).0) [
    | inl e ↦ (refl, e)
    | inr e ↦ (let h' = rw (e, spend) at h in cc)
  ]

  pub verify_halt_approval-IsHaltApproval :
      (verify_halt_approval store host ports trust sender (some d) digest maker s).0 ≡ none
      → IsHaltApproval host ports trust sender digest maker store s d
  unfolding verify_halt_approval
  verify_halt_approval-IsHaltApproval h =
      let result = verify_human_approval host ports trust (some sender) human_role (obj d) in
      let (open_gate, taken) =
        spend-none
          (approval_denial result d digest maker (store.seen s (get "run_id" d) (get "nonce" d))
            (store.seen s (get "run_id" d) (str next_action_scope_marker)))
          h in
      checked result refl open_gate taken
