-- ===== src/Wire/Certification/Certify.antt =====
-- wire/certification.py: `certify` itself.
use a2a_compliance.Wire.Certification.{
  CertifyArguments, CertifyReason, open_obligations, certify_ports, not_verified, find_discharge,
  reconciliation_not_object, receipt_not_object, freshness_reasons, nothing_dispatched,
  permit_not_object, not_enforcement, receipt_unbound, reconciliation_unbound, role_conflicts,
  reconciliation_not_clean,
}
use a2a_compliance.Prelude.{
  List, Option, String, if◌then◌else◌, ◌∷◌, Bool, some, map, not, none, is_empty, false, ◌&&◌, [],
  ◌++◌, true, ◌+◌,
}
use a2a_compliance.Host.{Host}
use a2a_compliance.Json.{
  Fields, Value, Items, obj, bool, is_str, nil, get, put_given, cons, opt_str, truthy, null, field,
  str, arr, end,
}
use a2a_compliance.Wire.Checks.{Ports, reference}
use a2a_compliance.Wire.Verification.{verify}
use a2a_compliance.Wire.Executor.Execute.{executable_grade}
use a2a_compliance.Json.Equality.{same}
use a2a_compliance.Wire.Chain.{digest_value}
use a2a_compliance.Wire.Obligations.{sign_object}

-- `CertificationResult`; `certification_raises` is an exception of the canonical form.
pub data Certification : Type 0 where
  not_certified : List CertifyReason → Certification
  certified : Fields → Certification
  certification_raises : Certification

module _ (host : Host) (ports : Ports) where
  abbrev pub verified : String → Value → List CertifyReason
  verified obj_type v = map not_verified (verify host ports v obj_type)

  -- Step 1, on a permit that is a dict.
  unfoldable pub permit_reasons : Fields → List CertifyReason
  permit_reasons permit =
      if not (is_empty (verified "ExecutionPermit" (obj permit)))
      then verified "ExecutionPermit" (obj permit)
      else if not (executable_grade (get "enforcement_grade" permit))
      then not_enforcement (get "enforcement_grade" permit) ∷ []
      else []

  unfoldable pub receipt_reasons : Value → Fields → List CertifyReason
  receipt_reasons action_digest d =
      if not (is_empty (verified "ToolReceipt" (obj d)))
      then verified "ToolReceipt" (obj d)
      else if not (same (get "action_digest" d) action_digest)
      then receipt_unbound (get "tool" d) ∷ []
      else []

  -- Step 2: the loop returns on the first receipt that fails.
  unfoldable pub receipts_reasons : Value → List Value → List CertifyReason
  unfolding receipt_reasons
  receipts_reasons action_digest [] = []
  receipts_reasons action_digest (obj d ∷ vs) =
      let rest = receipts_reasons action_digest vs in
      if is_empty (receipt_reasons action_digest d) then rest else receipt_reasons action_digest d
  receipts_reasons action_digest (_ ∷ vs) = receipt_not_object ∷ []

  -- Step 3. `certified is not True` wants the Boolean itself.
  abbrev pub is_true : Value → Bool
  is_true (bool true) = true
  is_true _ = false

  abbrev pub is_clean : Fields → Bool
  is_clean d =
      is_str (get "state" d) "RECONCILED"
      && (is_true (get "certified" d)
          && (not (truthy (get "residuals" d)) && not (truthy (get "invalid_receipts" d))))

  unfoldable pub reconciliation_reasons : Value → Fields → List CertifyReason
  reconciliation_reasons action_digest d =
      if not (is_empty (verified "Reconciliation" (obj d)))
      then verified "Reconciliation" (obj d)
      else if not (same (get "action_digest" d) action_digest)
      then reconciliation_unbound ∷ []
      else if not (is_clean d)
      then reconciliation_not_clean ∷ []
      else []

-- The receipts as dicts; all of them are, where step 2 passed.
unfoldable pub dicts : List Value → List Fields
dicts [] = []
dicts (obj d ∷ vs) = d ∷ dicts vs
dicts (_ ∷ vs) = dicts vs

module _ (host : Host) (args : CertifyArguments) where
  digest_items : List Fields → Items
  digest_items [] = nil
  digest_items (d ∷ ds) = cons (digest_value host d) (digest_items ds)

  discharge_items : Value → List String → Items
  discharge_items action_digest [] = nil
  discharge_items action_digest (o ∷ os) =
      let found : Value =
        elim (find_discharge host (certify_ports args) o action_digest args.discharge_receipts) [
          | none ↦ null
          | some d ↦ digest_value host d
        ] in
      cons found (discharge_items action_digest os)

  -- Steps 4 to 6, whose reasons are collected.
  unfoldable pub evidence_reasons : Fields → List Fields → Fields → List CertifyReason
  evidence_reasons permit receipts reconciliation =
      open_obligations host (certify_ports args) (get "action_digest" permit)
        args.discharge_receipts args.blocking_obligations
      ++ (freshness_reasons args.freshness (reference (certify_ports args)) args.mandatory_sources
          ++ role_conflicts args.signer permit receipts reconciliation args.approval)

  unfoldable pub certificate_fields : Fields → List Fields → Fields → Fields
  unfolding digest_items discharge_items
  certificate_fields permit receipts reconciliation =
      let issued = reference (certify_ports args) in
      put_given "prev_digest" (opt_str args.prev_digest) (
        field "schema_version" (str args.schema_version) (
          field "type" (str "OversightCertificate") (
            field "issuer" (str args.signer.identity) (
              field "issued_at" (str (host.isoformat issued)) (
                field "expires_at" (str (host.isoformat (issued + args.certificate_ttl))) (
                  field "run_id" (str args.run_id) (
                    field "nonce" (str args.nonce) (
                      field "key_id" (str args.signer.key_id) (
                        field "action_digest" (get "action_digest" permit) (
                          field "permit_digest" (digest_value host permit) (
                            field "reconciliation_digest" (digest_value host reconciliation) (
                              field "tool_receipt_digests" (arr (digest_items receipts)) (
                                field "discharged_obligation_digests"
                                  (arr (
                                    discharge_items (get "action_digest" permit)
                                      args.blocking_obligations))
                                  (field "certifier"
                                    (obj (
                                      field "id" (str args.signer.identity)
                                        (field "role" (str args.certifier_role) end)))
                                    end))))))))))))))

  unfoldable pub signed_certificate : Option Fields → Certification
  signed_certificate none = certification_raises
  signed_certificate (some c) = certified c

  -- `certify` on a permit and a reconciliation that are dicts.
  unfoldable pub certify_dicts : Fields → List Value → Fields → Certification
  unfolding signed_certificate
  certify_dicts permit receipts reconciliation =
      let ports = certify_ports args in
      let action_digest = get "action_digest" permit in
      let evidence = evidence_reasons permit (dicts receipts) reconciliation in
      if not (is_empty (permit_reasons host ports permit))
      then not_certified (permit_reasons host ports permit)
      else if is_empty receipts
      then not_certified (nothing_dispatched ∷ [])
      else if not (is_empty (receipts_reasons host ports action_digest receipts))
      then not_certified (receipts_reasons host ports action_digest receipts)
      else if not (is_empty (reconciliation_reasons host ports action_digest reconciliation))
      then not_certified (reconciliation_reasons host ports action_digest reconciliation)
      else if not (is_empty evidence)
      then not_certified evidence
      else signed_certificate
          (sign_object host args.signer (certificate_fields permit (dicts receipts) reconciliation))

  unfoldable pub certify : Value → List Value → Value → Certification
  unfolding certify_dicts
  certify (obj permit) receipts (obj reconciliation) = certify_dicts permit receipts reconciliation
  certify (obj permit) receipts _ = not_certified (reconciliation_not_object ∷ [])
  certify _ receipts _ = not_certified (permit_not_object ∷ [])
