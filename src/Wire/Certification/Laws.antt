-- ===== src/Wire/Certification/Laws.antt =====
-- wire/certification.py: what stands behind a certificate.
use a2a_compliance.Wire.Certification.{
  CertifyArguments, CertifyReason, FreshnessPort, certify_ports, is_signer, not_verified,
}
use a2a_compliance.Wire.Certification.Certify.{
  Certification, certified, not_certified, permit_reasons, receipts_reasons, receipt_reasons,
  reconciliation_reasons, is_clean, certificate_fields, dicts, verified,
}
use a2a_compliance.Wire.Verification.Laws.{IsAccepted}
use a2a_compliance.Wire.Chain.Laws.{same-eq, verify-dict-IsAccepted}
use a2a_compliance.Json.{Fields, Value, obj, get, str}
use a2a_compliance.Host.{Host}
use a2a_compliance.Prelude.{
  ℕ, Option, Bool, List, if◌then◌else◌, String, ◌∷◌, not, ◌≡◌, is_empty, [], true, false, ◌⊎◌, some,
  ◌≢◌, refl, map-eq-nil, Bool-cases, none, inl, is_empty-eq-true, inr,
}
use a2a_compliance.Wire.Admission.Permit.{Issuer}
use a2a_compliance.Wire.Checks.{Ports, reference}
use a2a_compliance.Wire.Executor.Execute.{executable_grade}
use a2a_compliance.Json.Equality.{same}
use a2a_compliance.Wire.Obligations.{sign_object}
use a2a_compliance.Wire.Verification.{verify}

-- A discharge among the receipts that were handed in.
abbrev pub IsIn : Fields → List Value → Type 0
IsIn d [] = ⊥
IsIn d (v ∷ vs) = (v ≡ obj d) ⊎ IsIn d vs

abbrev pub AllBound : Host → Ports → Value → List Value → Type 0
AllBound host ports action [] = Unit {0}
AllBound host ports action (v ∷ vs) =
    (d : Fields) × (v ≡ obj d)
    × IsAccepted host ports d "ToolReceipt"
    × (get "action_digest" d ≡ action)
    × AllBound host ports action vs

-- An accepted discharge receipt for this obligation and this action.
pub record IsDischarge (host : Host) (ports : Ports) (action : Value) (pool : List Value)
    (o : String) (d : Fields) : Type 0 where
  pub handed_in : IsIn d pool
  pub accepted : IsAccepted host ports d "ObligationDischargeReceipt"
  pub names : get "obligation_id" d ≡ str o
  pub bound : get "action_digest" d ≡ action

abbrev pub AllDischarged : Host → Ports → Value → List Value → List String → Type 0
AllDischarged host ports action pool [] = Unit {0}
AllDischarged host ports action pool (o ∷ os) =
    ((d : Fields) × IsDischarge host ports action pool o d)
    × AllDischarged host ports action pool os

abbrev pub AllFresh : FreshnessPort → ℕ → List String → Type 0
AllFresh fresh at [] = Unit {0}
AllFresh fresh at (s ∷ ss) = (fresh s at ≡ true) × AllFresh fresh at ss

abbrev pub AreFresh : Option FreshnessPort → ℕ → List String → Type 0
AreFresh none at ss = ss ≡ []
AreFresh (some fresh) at ss = AllFresh fresh at ss

-- No receipt was issued by the signer, under its identity or with its key.
abbrev pub AllApart : Issuer → List Fields → Type 0
AllApart signer [] = Unit {0}
AllApart signer (d ∷ ds) = (is_signer signer d ≡ false) × AllApart signer ds

pub record IsCertified (host : Host) (args : CertifyArguments) (permit : Fields)
    (receipts : List Value) (reconciliation : Fields) (c : Fields) : Type 0 where
  pub permit_ok : IsAccepted host (certify_ports args) permit "ExecutionPermit"
  pub graded : executable_grade (get "enforcement_grade" permit) ≡ true
  pub dispatched : receipts ≢ []
  pub receipts_ok : AllBound host (certify_ports args) (get "action_digest" permit) receipts
  pub reconciliation_ok : IsAccepted host (certify_ports args) reconciliation "Reconciliation"
  pub reconciled : get "action_digest" reconciliation ≡ get "action_digest" permit
  pub clean : is_clean host (certify_ports args) reconciliation ≡ true
  pub discharged :
      AllDischarged host
        (certify_ports args)
        (get "action_digest" permit)
        args.discharge_receipts
        args.blocking_obligations
  pub fresh : AreFresh args.freshness (reference (certify_ports args)) args.mandatory_sources
  pub not_issuer : is_signer args.signer permit ≡ false
  pub not_reconciler : is_signer args.signer reconciliation ≡ false
  pub not_recorder : AllApart args.signer (dicts receipts)
  pub signed :
      sign_object host args.signer
        (certificate_fields host args permit (dicts receipts) reconciliation)
      ≡ some c

pub gate :
    (b : Bool) (x : List CertifyReason) (rest : Certification) {c : Fields}
    → (if not b then not_certified x else rest) ≡ certified c
    → (b ≡ true) × (rest ≡ certified c)
gate true x rest h = (refl, h)
gate false x rest h = cc

pub bar :
    (b : Bool) (x : List CertifyReason) (rest : Certification) {c : Fields}
    → (if b then not_certified x else rest) ≡ certified c
    → (b ≡ false) × (rest ≡ certified c)
bar false x rest h = (refl, h)
bar true x rest h = cc

-- A list of reasons that begins with a guard.
guarded :
    (b : Bool) (x rest : List CertifyReason)
    → (if not b then x else rest) ≡ []
    → (b ≡ false → x ≢ [])
    → (b ≡ true) × (rest ≡ [])
guarded true x rest h n = (refl, h)
guarded false x rest h n = absurd (n refl h)

pub unless_nil : {A : Type 0} (b : Bool) (x : A) → (if b then x ∷ [] else []) ≡ [] → b ≡ false
unless_nil true x h = cc
unless_nil false x h = refl

module _ (host : Host) (ports : Ports) where
  verified-nil :
      (obj_type : String) (d : Fields)
      → is_empty (verified host ports obj_type (obj d)) ≡ true
      → IsAccepted host ports d obj_type
  verified-nil obj_type d h =
      verify-dict-IsAccepted host ports obj_type d
        (map-eq-nil not_verified (verify host ports (obj d) obj_type) (is_empty-eq-true _ h))

  not_empty : {A : Type 0} (xs : List A) → is_empty xs ≡ false → xs ≢ []
  not_empty [] h e = cc
  not_empty (x ∷ xs) h e = cc

  pub permit_law :
      (permit : Fields)
      → permit_reasons host ports permit ≡ []
      → IsAccepted host ports permit "ExecutionPermit"
        × (executable_grade (get "enforcement_grade" permit) ≡ true)
  unfolding permit_reasons
  permit_law permit h =
      let (a, rest) =
        guarded (is_empty (verified host ports "ExecutionPermit" (obj permit))) _ _ h
          (not_empty _) in
      let (b, done) =
        guarded (executable_grade (get "enforcement_grade" permit)) _ _ rest (λ e f. cc) in
      (verified-nil "ExecutionPermit" permit a, b)

  receipt_law :
      (action : Value) (d : Fields)
      → receipt_reasons host ports action d ≡ []
      → IsAccepted host ports d "ToolReceipt" × (get "action_digest" d ≡ action)
  unfolding receipt_reasons
  receipt_law action d h =
      let (a, rest) =
        guarded (is_empty (verified host ports "ToolReceipt" (obj d))) _ _ h (not_empty _) in
      let (b, done) = guarded (same (get "action_digest" d) action) _ _ rest (λ e f. cc) in
      (verified-nil "ToolReceipt" d a, same-eq (get "action_digest" d) action b)

  pub receipts_law :
      (action : Value) (vs : List Value)
      → receipts_reasons host ports action vs ≡ []
      → AllBound host ports action vs
  unfolding receipts_reasons
  receipts_law action [] h = tt
  receipts_law action (obj d ∷ vs) h =
      elim (Bool-cases (is_empty (receipt_reasons host ports action d))) [
        | inl e ↦
            (let (a, b) = receipt_law action d (is_empty-eq-true _ e) in
              (d, refl, a, b, receipts_law action vs (rw e at h)))
        | inr e ↦ absurd (not_empty (receipt_reasons host ports action d) e (rw e at h))
      ]
  receipts_law action (_ ∷ vs) h = cc

  pub reconciliation_law :
      (action : Value) (d : Fields)
      → reconciliation_reasons host ports action d ≡ []
      → IsAccepted host ports d "Reconciliation"
        × (get "action_digest" d ≡ action)
        × (is_clean host ports d ≡ true)
  unfolding reconciliation_reasons
  reconciliation_law action d h =
      let (a, r1) =
        guarded (is_empty (verified host ports "Reconciliation" (obj d))) _ _ h (not_empty _) in
      let (b, r2) = guarded (same (get "action_digest" d) action) _ _ r1 (λ e f. cc) in
      let (c, done) = guarded (is_clean host ports d) _ _ r2 (λ e f. cc) in
      (verified-nil "Reconciliation" d a, same-eq (get "action_digest" d) action b, c)
