-- ===== src/Wire/Reconciliation/Clean.antt =====
-- wire/reconciliation.py: what a reconciliation that says `certified` stands for.
use a2a_compliance.Wire.Reconciliation.Laws.{AllMatched, matched_law}
use a2a_compliance.Json.{put, Fields, Value, get, obj, bool, str}
use a2a_compliance.Wire.Reconciliation.{
  ReconcileArguments, ObservedEffects, verified_receipts, receipts_residuals, reconcile_ports,
  observed_map, unmatched_of, intended_map, missing_tools, ReconcileReason, unexpected_effect,
  missing_receipt,
}
use a2a_compliance.Wire.Reconciliation.Reconcile.{
  Reconciled, reconciled, not_reconciled, reconcile, Comparison, compare_effects, all_residuals,
  is_certified, built, reconciliation_fields, result_of, observed_digest,
}
use a2a_compliance.Wire.Verification.Laws.{IsAccepted}
use a2a_compliance.Wire.Chain.Laws.{verify-dict-IsAccepted}
use a2a_compliance.Host.{Host}
use a2a_compliance.Wire.Obligations.{sign_object}
use a2a_compliance.Prelude.{
  List, ◌≡◌, Option, none, [], Bool, some, if◌then◌else◌, true, false, is_empty, ◌≢◌, String, not,
  >>=-eq-some, refl, map-eq-some, is_empty-eq-true, append-eq-nil, ◌∙◌, ap, &&-eq-true, sym, map,
  map-eq-nil,
}
use a2a_compliance.Wire.Executor.Execute.{executable_grade}
use a2a_compliance.Wire.Canonical.{digest_hex, subject_digest}
use a2a_compliance.Wire.Verification.{verify}
use a2a_compliance.Json.Laws.{get-put_other}

-- What stands behind a reconciliation that says `certified`.
pub record IsClean (host : Host) (args : ReconcileArguments) (permit : Fields)
    (receipts : List Value) (observed : Option ObservedEffects) : Type 0 where
  pub permit_ok : IsAccepted host (reconcile_ports args) permit "ExecutionPermit"
  pub graded : executable_grade (get "enforcement_grade" permit) ≡ true
  pub matched :
      AllMatched host
        (reconcile_ports args)
        (get "action_digest" permit)
        (observed_map observed)
        (intended_map args)
        receipts
  pub explained : unmatched_of observed ≡ []
  pub complete :
      missing_tools
        (verified_receipts host (reconcile_ports args) (get "action_digest" permit) receipts)
        (intended_map args)
      ≡ []
  pub dispatched :
      verified_receipts host (reconcile_ports args) (get "action_digest" permit) receipts ≢ []

module _ (host : Host) (args : ReconcileArguments) where
  reconciled-injective : (a b : Fields) → reconciled a ≡ reconciled b → a ≡ b
  reconciled-injective a b h = cc

  certified_field :
      (permit : Fields) (c : Comparison) (a b : String)
      → get "certified" (reconciliation_fields host args permit c a b)
        ≡ bool (is_certified host args c)
  unfolding reconciliation_fields
  certified_field permit c a b = refl

  signed_certified :
      (permit : Fields) (c : Comparison) (observed : Option ObservedEffects) (r : Fields)
      → built host args permit c observed ≡ some r
      → get "certified" r ≡ bool (is_certified host args c)
  unfolding built sign_object
  signed_certified permit c observed r h =
      let (seen, e1, h1) = >>=-eq-some (observed_digest host args observed) _ h in
      let (meant, e2, h2) = >>=-eq-some (digest_hex host (obj (intended_map args))) _ h1 in
      let d = reconciliation_fields host args permit c meant seen in
      let (digest, e3, h3) = map-eq-some _ (subject_digest host d) r h2 in
      let digested = put "subject_digest" (str digest) d in
      rw (← h3) (
        get-put_other "certified" "signature" (str (args.signer.sign digested)) digested refl
        ∙ (get-put_other "certified" "subject_digest" (str digest) d refl
            ∙ certified_field permit c meant seen))

  gate :
      (b : Bool) (x : List ReconcileReason) (rest : Reconciled) {r : Fields}
      → (if not b then not_reconciled x else rest) ≡ reconciled r
      → (b ≡ true) × (rest ≡ reconciled r)
  gate true x rest h = (refl, h)
  gate false x rest h = cc

  result_law : (o : Option Fields) (r : Fields) → result_of host args o ≡ reconciled r → o ≡ some r
  result_law none r h = cc
  result_law (some d) r h = ap some (reconciled-injective d r h)

  clean_law :
      (c : Comparison)
      → is_certified host args c ≡ true
      → (c.invalid ≡ []) × (c.residuals ≡ []) × (c.verified ≢ [])
  unfolding is_certified
  clean_law c h =
      let (a, r) = &&-eq-true (is_empty c.invalid) _ h in
      let (b, d) = &&-eq-true (is_empty c.residuals) _ r in
      (
        is_empty-eq-true c.invalid a,
        is_empty-eq-true c.residuals b,
        λ e. (let d' = rw e at d in cc),
      )

  bool-injective : (a b : Bool) → bool a ≡ bool b → a ≡ b
  bool-injective a b h = cc

  -- A reconciliation that says `certified` is signed only for a verified permit of an enforcement
  -- grade, when every tool receipt that was handed in verifies, binds the permit's action, reports
  -- the digest of the effect that the host observed for it, and the digest of the effect intended
  -- for its tool where there is one; when at least one receipt was handed in and verified, the host
  -- observed no further effect, and every intended tool was delivered.
  pub reconcile-IsClean :
      (permit : Value) (receipts : List Value) (observed : Option ObservedEffects) (r : Fields)
      → reconcile host args permit receipts observed ≡ reconciled r
      → get "certified" r ≡ bool true
      → (p : Fields) × (permit ≡ obj p) × IsClean host args p receipts observed
  unfolding reconcile compare_effects all_residuals
  reconcile-IsClean (obj p) receipts observed r h k =
      let ports = reconcile_ports args in
      let action = get "action_digest" p in
      let c = compare_effects host args p receipts observed in
      let (ok, h1) = gate (is_empty (verify host ports (obj p) "ExecutionPermit")) _ _ h in
      let (graded, h2) = gate (executable_grade (get "enforcement_grade" p)) _ _ h1 in
      let made = result_law (built host args p c observed) r h2 in
      let (no_invalid, no_residual, some_verified) =
        clean_law c (bool-injective _ true (sym (signed_certified p c observed r made) ∙ k)) in
      let (e1, r1) =
        append-eq-nil
          (receipts_residuals host (observed_map observed) (intended_map args) c.verified) _
          no_residual in
      let (e2, r2) =
        append-eq-nil (map (λ e. unexpected_effect (digest_hex host e)) (unmatched_of observed)) _
          r1 in
      let (e3, r3) =
        append-eq-nil (map missing_receipt (missing_tools c.verified (intended_map args))) _ r2 in
      (
        p,
        refl,
        record {
          permit_ok = verify-dict-IsAccepted host ports "ExecutionPermit" p (is_empty-eq-true _ ok);
          graded = graded;
          matched =
              matched_law host ports action (observed_map observed) (intended_map args) receipts
                no_invalid e1;
          explained =
              map-eq-nil (λ (e : Value). unexpected_effect (digest_hex host e))
                (unmatched_of observed) e2;
          complete = map-eq-nil missing_receipt (missing_tools c.verified (intended_map args)) e3;
          dispatched = some_verified;
        },
      )
  reconcile-IsClean _ receipts observed r h k = cc
