-- ===== src/Wire/Reconciliation/Reconcile.antt =====
-- wire/reconciliation.py: `reconcile` itself.
use a2a_compliance.Wire.Reconciliation.{
  ReconcileReason, not_verified, not_enforcement, permit_not_object, nothing_dispatched,
  missing_receipt, unexpected_effect, Residual, InvalidReceipt, ReconcileArguments, ObservedEffects,
  receipts_residuals, observed_map, intended_map, verified_receipts, unmatched_of, reconcile_ports,
  invalid_receipts, missing_tools,
}
use a2a_compliance.Prelude.{
  ◌>>=◌, List, Option, Bool, String, is_empty, some, ◌&&◌, none, not, ◌∷◌, ◌++◌, ◌+◌, if◌then◌else◌,
  map, [],
}
use a2a_compliance.Host.{Host}
use a2a_compliance.Json.{
  Fields, Value, Items, get, field, nil, obj, str, end, cons, arr, bool, texts,
}
use a2a_compliance.Wire.Checks.{reference}
use a2a_compliance.Wire.Canonical.{digest_hex}
use a2a_compliance.Wire.Verification.{verify}
use a2a_compliance.Wire.Obligations.{sign_object}
use a2a_compliance.Wire.Executor.Execute.{executable_grade}

-- `ReconciliationResult`; `reconciliation_raises` is an exception of the canonical form.
pub data Reconciled : Type 0 where
  not_reconciled : List ReconcileReason → Reconciled
  reconciled : Fields → Reconciled
  reconciliation_raises : Reconciled

-- Everything that the comparison collects.
pub record Comparison : Type 0 where
  pub verified : List Fields
  pub invalid : List InvalidReceipt
  pub residuals : List Residual
  pub missing : List String

module _ (host : Host) (args : ReconcileArguments) where
  unfoldable pub all_residuals : Option ObservedEffects → List Fields → List Residual
  all_residuals observed ds =
      receipts_residuals host (observed_map observed) (intended_map args) ds
      ++ (map (λ e. unexpected_effect (digest_hex host e)) (unmatched_of observed)
          ++ (map missing_receipt (missing_tools ds (intended_map args))
              ++ (if is_empty ds then nothing_dispatched ∷ [] else [])))

  unfoldable pub compare_effects : Fields → List Value → Option ObservedEffects → Comparison
  compare_effects permit receipts observed =
      let action = get "action_digest" permit in
      let ds = verified_receipts host (reconcile_ports args) action receipts in
      record {
        verified = ds;
        invalid = invalid_receipts host (reconcile_ports args) action receipts;
        residuals = all_residuals observed ds;
        missing = missing_tools ds (intended_map args);
      }

  -- `not invalid and not residuals and bool(verified_receipts)`
  unfoldable pub is_certified : Comparison → Bool
  is_certified c = is_empty c.invalid && (is_empty c.residuals && not (is_empty c.verified))

  -- `{digest: digest_hex(effect) for ...}`, `[digest_hex(e) for ...]`; none where one raises
  digest_effects : Fields → Option Fields
  digest_effects end = some end
  digest_effects (field k v d) = do
    s ← digest_hex host v
    rest ← digest_effects d
    some (field k (str s) rest)

  digest_all : List Value → Option Items
  digest_all [] = some nil
  digest_all (v ∷ vs) = do s ← digest_hex host v; rest ← digest_all vs; some (cons (str s) rest)

  unfoldable pub observed_digest : Option ObservedEffects → Option String
  unfolding digest_effects digest_all
  observed_digest observed = do
    effects ← digest_effects (observed_map observed)
    unmatched ← digest_all (unmatched_of observed)
    digest_hex host (obj (field "effects" (obj effects) (field "unmatched" (arr unmatched) end)))

  unfoldable pub reconciliation_fields : Fields → Comparison → String → String → Fields
  unfolding is_certified
  reconciliation_fields permit c intended_digest seen_digest =
      let issued = reference (reconcile_ports args) in
      field "schema_version" (str args.schema_version) (
        field "type" (str "Reconciliation") (
          field "issuer" (str args.signer.identity) (
            field "issued_at" (str (host.isoformat issued)) (
              field "expires_at" (str (host.isoformat (issued + args.reconciliation_ttl))) (
                field "run_id" (str args.run_id) (
                  field "nonce" (str args.nonce) (
                    field "key_id" (str args.signer.key_id) (
                      field "state" (str "RECONCILED") (
                        field "certified" (bool (is_certified c)) (
                          field "action_digest" (get "action_digest" permit) (
                            field "missing_receipts" (arr (texts c.missing)) (
                              field "open_receipts" (arr nil) (
                                field "failed_receipts" (arr nil) (
                                  field "invalid_receipts"
                                    (arr (texts (map args.invalid_text c.invalid)))
                                    (field "reason"
                                      (str
                                        (args.reason_text (is_certified c) c.residuals c.invalid))
                                      (field "intended_effects_digest" (str intended_digest) (
                                        field "observed_effects_digest" (str seen_digest) (
                                          field "discharged_obligations" (arr nil) (
                                            field "residuals"
                                              (arr (texts (map args.residual_text c.residuals)))
                                              end)))))))))))))))))))

  unfoldable pub built : Fields → Comparison → Option ObservedEffects → Option Fields
  unfolding observed_digest
  built permit c observed = do
    seen_digest ← observed_digest observed
    intended_digest ← digest_hex host (obj (intended_map args))
    sign_object host args.signer (reconciliation_fields permit c intended_digest seen_digest)

  abbrev pub result_of : Option Fields → Reconciled
  result_of none = reconciliation_raises
  result_of (some r) = reconciled r

  unfoldable pub reconcile : Value → List Value → Option ObservedEffects → Reconciled
  reconcile (obj permit) receipts observed =
      let errors = verify host (reconcile_ports args) (obj permit) "ExecutionPermit" in
      let c = compare_effects permit receipts observed in
      if not (is_empty errors)
      then not_reconciled (map not_verified errors)
      else if not (executable_grade (get "enforcement_grade" permit))
      then not_reconciled (not_enforcement (get "enforcement_grade" permit) ∷ [])
      else result_of (built permit c observed)
  reconcile _ receipts observed = not_reconciled (permit_not_object ∷ [])
