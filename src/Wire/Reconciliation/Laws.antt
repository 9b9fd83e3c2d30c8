-- ===== src/Wire/Reconciliation/Laws.antt =====
-- wire/reconciliation.py: receipts that leave no message agree with the observed effects.
use a2a_compliance.Json.{Fields, Value, get, is_null, obj}
use a2a_compliance.Wire.Reconciliation.{
  Residual, receipt_invalid, invalid_receipts, verified_receipts, receipts_residuals,
  observed_residuals, intended_residuals, seen_effect, is_digest, has_value, get_value,
  intended_mismatch,
}
use a2a_compliance.Wire.Verification.Laws.{IsAccepted}
use a2a_compliance.Wire.Chain.Laws.{verify-dict-IsAccepted, same-eq}
use a2a_compliance.Host.{Host}
use a2a_compliance.Wire.Checks.{Ports}
use a2a_compliance.Prelude.{
  List, ◌≡◌, ◌∷◌, none, [], Bool, gate-eq-none, if◌then◌else◌, true, false, is_empty, ◌&&◌,
  Option-cases, not, inr, Bool-cases, refl, inl, is_empty-eq-true, append-eq-nil,
}
use a2a_compliance.Wire.Canonical.{digest_hex}
use a2a_compliance.Wire.Verification.{verify}
use a2a_compliance.Json.Equality.{same}

-- A receipt whose report agrees with what the host observed and with what was intended.
pub record IsMatched (host : Host) (ports : Ports) (action : Value) (observed intended : Fields)
    (d : Fields) : Type 0 where
  pub accepted : IsAccepted host ports d "ToolReceipt"
  pub bound : get "action_digest" d ≡ action
  pub effect_seen : is_null (seen_effect host observed intended d) ≡ false
  pub effect_reported :
      is_digest (digest_hex host (seen_effect host observed intended d)) (get "effect_digest" d)
      ≡ true
  pub as_intended :
      has_value (get "tool" d) intended ≡ true
      → is_digest (digest_hex host (get_value (get "tool" d) intended)) (get "effect_digest" d)
        ≡ true

abbrev pub AllMatched : Host → Ports → Value → Fields → Fields → List Value → Type 0
AllMatched host ports action observed intended [] = Unit {0}
AllMatched host ports action observed intended (v ∷ vs) =
    ((d : Fields) × (v ≡ obj d) × IsMatched host ports action observed intended d)
    × AllMatched host ports action observed intended vs

module _ (host : Host) (ports : Ports) (action : Value) (observed intended : Fields) where
  valid_receipt :
      (d : Fields)
      → receipt_invalid host ports action d ≡ none
      → IsAccepted host ports d "ToolReceipt" × (get "action_digest" d ≡ action)
  unfolding receipt_invalid
  valid_receipt d h =
      let (a, rest) = gate-eq-none (is_empty (verify host ports (obj d) "ToolReceipt")) _ _ h in
      let (b, done) = gate-eq-none (same (get "action_digest" d) action) _ _ rest in
      (
        verify-dict-IsAccepted host ports "ToolReceipt" d (is_empty-eq-true _ a),
        same-eq (get "action_digest" d) action b,
      )

  observed_law :
      (d : Fields)
      → observed_residuals host observed intended d ≡ []
      → (is_null (seen_effect host observed intended d) ≡ false)
        × (is_digest
              (digest_hex host (seen_effect host observed intended d))
              (get "effect_digest" d)
            ≡ true)
  unfolding observed_residuals
  observed_law d h = elim (Bool-cases (is_null (seen_effect host observed intended d))) [
    | inl e ↦ (let h' = rw e at h in cc)
    | inr e ↦
        elim (Bool-cases (
          is_digest (digest_hex host (seen_effect host observed intended d))
            (get "effect_digest" d))) [ inl f ↦ (e, f) | inr f ↦ (let h' = rw (e, f) at h in cc) ]
  ]

  intended_test :
      (a b : Bool) (x : Residual) → (if a && not b then x ∷ [] else []) ≡ [] → a ≡ true → b ≡ true
  intended_test true true x h e = refl
  intended_test true false x h e = cc
  intended_test false b x h e = cc

  verified_receipts-cons :
      (d : Fields) (vs : List Value)
      → receipt_invalid host ports action d ≡ none
      → verified_receipts host ports action (obj d ∷ vs)
        ≡ d ∷ verified_receipts host ports action vs
  unfolding verified_receipts
  verified_receipts-cons d vs e = rw (e, verified_receipts) refl

  pub matched_law :
      (vs : List Value)
      → invalid_receipts host ports action vs ≡ []
      → receipts_residuals host observed intended (verified_receipts host ports action vs) ≡ []
      → AllMatched host ports action observed intended vs
  unfolding invalid_receipts receipts_residuals intended_residuals
  matched_law [] h r = tt
  matched_law (obj d ∷ vs) h r = elim (Option-cases (receipt_invalid host ports action d)) [
    | inr (x, e) ↦ (let h' = rw (e, invalid_receipts) at h in cc)
    | inl e ↦
        (let r' = rw (verified_receipts-cons d vs e) at r in
          let (seen, r1) = append-eq-nil (observed_residuals host observed intended d) _ r' in
          let (meant, r2) = append-eq-nil (intended_residuals host observed intended d) _ r1 in
          let (accepted, bound) = valid_receipt d e in
          let (effect, report) = observed_law d seen in
          (
            (
              d,
              refl,
              record {
                accepted = accepted;
                bound = bound;
                effect_seen = effect;
                effect_reported = report;
                as_intended =
                    intended_test (has_value (get "tool" d) intended)
                      (is_digest (digest_hex host (get_value (get "tool" d) intended))
                        (get "effect_digest" d))
                      (intended_mismatch (get "tool" d)) meant;
              },
            ),
            matched_law vs (rw (e, invalid_receipts) at h) r2,
          ))
  ]
  matched_law (_ ∷ vs) h r = cc
