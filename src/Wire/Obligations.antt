-- ===== src/Wire/Obligations.antt =====
-- wire/obligations.py: the receipt that discharges an obligation, and the last two lines that it
-- shares with reconciliations and certificates.
use a2a_compliance.Json.{put, Fields, str, field, obj, end}
use mathlib.Core.Option
use a2a_compliance.Wire.Admission.Permit.{Issuer}
use a2a_compliance.Wire.Canonical.{subject_digest}
use a2a_compliance.Host.{Host, DateTime, as_utc}
use a2a_compliance.Prelude.{String, Option, ℕ, none, some}

-- `x["subject_digest"] = subject_digest(x)` and `x["signature"] = signer.sign(x)`; none where the
-- canonical form raises.
unfoldable pub sign_object : Host → Issuer → Fields → Option Fields
sign_object host signer d =
    Option.map
      (λ digest.
        let digested = put "subject_digest" (str digest) d in
        put "signature" (str (signer.sign digested)) digested)
      (subject_digest host d)

-- The keyword arguments of `issue_discharge_receipt`.
pub record DischargeArguments : Type 0 where
  pub discharger : Issuer
  pub run_id : String
  pub nonce : String
  pub expires_at : DateTime
  pub discharger_role : String
  pub issued_at : Option DateTime
  pub clock : ℕ
  pub schema_version : String

unfoldable pub discharge_fields : Host → String → String → DischargeArguments → Fields
discharge_fields host obligation_id action_digest args =
    let issued : ℕ = elim args.issued_at [ none ↦ args.clock | some t ↦ as_utc t ] in
    field "schema_version" (str args.schema_version) (
      field "type" (str "ObligationDischargeReceipt") (
        field "issuer" (str args.discharger.identity) (
          field "issued_at" (str (host.isoformat issued)) (
            field "expires_at" (str (host.isoformat (as_utc args.expires_at))) (
              field "run_id" (str args.run_id) (
                field "nonce" (str args.nonce) (
                  field "key_id" (str args.discharger.key_id) (
                    field "obligation_id" (str obligation_id) (
                      field "action_digest" (str action_digest) (
                        field "discharged_by"
                          (obj (
                            field "id" (str args.discharger.identity)
                              (field "role" (str args.discharger_role) end)))
                          end))))))))))

unfoldable pub issue_discharge_receipt : Host → String → String → DischargeArguments → Option Fields
unfolding sign_object discharge_fields
issue_discharge_receipt host obligation_id action_digest args =
    sign_object host args.discharger (discharge_fields host obligation_id action_digest args)
