-- ===== src/Wire/Admission/Permit.antt =====
-- wire/admission.py: `issue_permit`, the only maker of an `ExecutionPermit`.
pub mod Laws
use mathlib.Core.Option
use a2a_compliance.Prelude.{
  String, Option, ℕ, Bool, none, true, false, some, ◌||◌, if◌then◌else◌, not, is_none, ◌&&◌,
}
use a2a_compliance.Wire.Admission.{AdmissionDecision, AdmissionResult, decision_admitted}
use a2a_compliance.Json.{
  Fields, Items, Value, end, is_str, nil, put, get_in, cons, get, arr, str, obj, field,
}
use a2a_compliance.Host.{Host, DateTime, as_utc}
use a2a_compliance.Nonces.{NonceStore}
use a2a_compliance.Wire.Canonical.{subject_digest}

-- `Issuer`; `sign` gets the permit without its signature.
pub record Issuer : Type 0 where
  pub key_id : String
  pub identity : String
  pub sign : Fields → String

pub data PermitReason : Type 0 where
  decision_not_admitted : AdmissionDecision → PermitReason
  role_separation nonce_reuse aud_without_cnf cnf_without_aud : PermitReason

-- `PermitIssueResult`; `permit_raises` is a permit with no canonical form.
pub data PermitIssue : Type 0 where
  permit_refused : PermitReason → PermitIssue
  permit_issued : Fields → PermitIssue
  permit_raises : PermitIssue

-- The keyword arguments of `issue_permit`; `now_clock` is what `datetime.now` answers.
pub record PermitArguments : Type 0 where
  pub issuer : Issuer
  pub enforcement_grade : String
  pub adapter : String
  pub run_id : String
  pub nonce : String
  pub expires_at : DateTime
  pub constraints : Option Fields
  pub approval : Option Fields
  pub aud : Option String
  pub cnf : Option Fields
  pub issued_at : Option DateTime
  pub now_clock : ℕ
  pub schema_version : String

abbrev pub is_admission : AdmissionDecision → Bool
is_admission decision_admitted = true
is_admission _ = false

-- Whether the issuer is the approver, by identity or by key.
abbrev pub is_approver : Issuer → Option Fields → Bool
is_approver issuer none = false
is_approver issuer (some a) =
    is_str (get_in "id" (get "approver" a)) issuer.identity || is_str (get "key_id" a) issuer.key_id

-- `merged_constraints`: the approver's reservations replace those of the caller.
unfoldable pub merged_constraints : Option Fields → Items → Fields
merged_constraints constraints reservations =
    let base : Fields = elim constraints [ none ↦ end | some d ↦ d ] in
    elim reservations [ nil ↦ base | cons v vs ↦ put "reservations" (arr (cons v vs)) base ]

abbrev pub issued_instant : PermitArguments → ℕ
issued_instant args = elim args.issued_at [ none ↦ args.now_clock | some t ↦ as_utc t ]

abbrev pub put_some : String → Option Value → Fields → Fields
put_some k none d = d
put_some k (some v) d = put k v d

module _ (host : Host) where
  -- The fields that every permit has.
  unfoldable pub base_fields : AdmissionResult → PermitArguments → Fields
  unfolding merged_constraints
  base_fields admission args = field "schema_version" (str args.schema_version) (
      field "type" (str "ExecutionPermit") (
        field "issuer" (str args.issuer.identity) (
          field "issued_at" (str (host.isoformat (issued_instant args))) (
            field "expires_at" (str (host.isoformat (as_utc args.expires_at))) (
              field "run_id" (str args.run_id) (
                field "nonce" (str args.nonce) (
                  field "key_id" (str args.issuer.key_id) (
                    field "action_digest" (str admission.action_digest) (
                      field "enforcement_grade" (str args.enforcement_grade) (
                        field "adapter" (str args.adapter) (
                          field "constraints"
                            (obj
                              (merged_constraints args.constraints admission.approval_reservations))
                            end)))))))))))

  -- The permit before its digest and its signature.
  unfoldable pub permit_fields : AdmissionResult → PermitArguments → Fields
  unfolding base_fields
  permit_fields admission args =
      put_some "governance_block_digest" (Option.map str admission.governance_block_digest) (
        put_some "cnf" (Option.map obj args.cnf)
          (put_some "aud" (Option.map str args.aud) (base_fields admission args)))

  -- The permit with its digest and its signature.
  unfoldable pub signed_permit : AdmissionResult → PermitArguments → Option Fields
  unfolding permit_fields
  signed_permit admission args =
      let permit = permit_fields admission args in
      Option.map
        (λ digest.
          let digested = put "subject_digest" (str digest) permit in
          put "signature" (str (args.issuer.sign digested)) digested)
        (subject_digest host permit)

  -- The last step: the nonce is recorded with an issued permit.
  unfoldable pub finish_issue :
      {S : Type 0} → NonceStore S → PermitArguments → S → Option Fields → PermitIssue × S
  finish_issue store args s none = (permit_raises, s)
  finish_issue store args s (some permit) =
      (permit_issued permit, store.record_nonce s (str args.run_id) (str args.nonce))

  -- `issue_permit`: the nonce is recorded only with an issued permit.
  unfoldable pub issue_permit :
      {S : Type 0} → NonceStore S → AdmissionResult → PermitArguments → S → PermitIssue × S
  unfolding signed_permit finish_issue
  issue_permit {S = S} store admission args s =
      let built = finish_issue store args s (signed_permit admission args) in
      if not (is_admission admission.decision)
      then (permit_refused (decision_not_admitted admission.decision), s)
      else if is_approver args.issuer args.approval
      then (permit_refused role_separation, s)
      else if store.seen s (str args.run_id) (str args.nonce)
      then (permit_refused nonce_reuse, s)
      else if not (is_none args.aud) && is_none args.cnf
      then (permit_refused aud_without_cnf, s)
      else if is_none args.aud && not (is_none args.cnf)
      then (permit_refused cnf_without_aud, s)
      else built
