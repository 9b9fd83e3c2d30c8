-- ===== src/Wire/Admission/Permit/Laws.antt =====
-- What an issued permit guarantees.
use mathlib.Core.Option
use a2a_compliance.Prelude.{
  String, Bool, not, ◌==◌, ◌&&◌, ◌≡◌, if◌then◌else◌, false, true, is_none, refl, some, Option, none,
  ◌∙◌, ap, sym, map-eq-some, arith, ◌⊎◌, inl, inr,
}
use a2a_compliance.Host.{Host}
use a2a_compliance.Nonces.{NonceStore}
use a2a_compliance.Wire.Admission.Permit.{
  PermitReason, PermitIssue, PermitArguments, permit_refused, is_approver, permit_issued,
  merged_constraints, permit_fields, issue_permit, put_some, signed_permit, base_fields,
  permit_raises, is_admission, finish_issue,
}
use a2a_compliance.Wire.Admission.{AdmissionResult, decision_admitted}
use a2a_compliance.Json.{Fields, str, get, obj, Value, put, nil, Items, get_in, arr, cons}
use a2a_compliance.Wire.Canonical.{subject_digest}
use a2a_compliance.Json.Laws.{get-put_other, get-put_self}
use a2a_compliance.Wire.Canonical.Laws.{subject_digest-signed}

-- A field that signing and the optional fields leave alone.
abbrev kept : String → Bool
kept k =
    not (k == "signature")
    && (not (k == "subject_digest")
        && (not (k == "governance_block_digest") && (not (k == "cnf") && not (k == "aud"))))

pub record IsIssued {S : Type 0} (host : Host) (store : NonceStore S) (admission : AdmissionResult)
    (args : PermitArguments) (s : S) (d : Fields) (s' : S) : Type 0 where
  pub admitted : admission.decision ≡ decision_admitted
  pub separated : is_approver args.issuer args.approval ≡ false
  pub fresh : store.seen s (str args.run_id) (str args.nonce) ≡ false
  pub recorded : s' ≡ store.record_nonce s (str args.run_id) (str args.nonce)
  pub constrained : is_none args.aud ≡ is_none args.cnf
  pub bound : get "action_digest" d ≡ str admission.action_digest
  pub nonce : get "nonce" d ≡ str args.nonce
  pub carried :
      (admission.approval_reservations ≡ nil)
      ⊎ (get_in "reservations" (get "constraints" d) ≡ arr admission.approval_reservations)
  pub digested : Option.map str (subject_digest host d) ≡ some (get "subject_digest" d)

-- The five gates of `issue_permit`.
passed_gates :
    {S : Type 0} (a b c d₁ d₂ : Bool) (x₁ x₂ x₃ x₄ x₅ : PermitReason) (s : S)
    (built : PermitIssue × S) (d : Fields) (s' : S)
    → (if not a
        then (permit_refused x₁, s)
        else if b
        then (permit_refused x₂, s)
        else if c
        then (permit_refused x₃, s)
        else if not d₁ && d₂
        then (permit_refused x₄, s)
        else if d₁ && not d₂
        then (permit_refused x₅, s)
        else built)
      ≡ (permit_issued d, s')
    → (a ≡ true) × (b ≡ false) × (c ≡ false) × (d₁ ≡ d₂) × (built ≡ (permit_issued d, s'))
passed_gates true false false true true x₁ x₂ x₃ x₄ x₅ s built d s' h = (refl, refl, refl, refl, h)
passed_gates true false false false false x₁ x₂ x₃ x₄ x₅ s built d s' h =
    (refl, refl, refl, refl, h)
passed_gates true false false true false x₁ x₂ x₃ x₄ x₅ s built d s' h = absurd (cc)
passed_gates true false false false true x₁ x₂ x₃ x₄ x₅ s built d s' h = absurd (cc)
passed_gates true false true d₁ d₂ x₁ x₂ x₃ x₄ x₅ s built d s' h = absurd (cc)
passed_gates true true c d₁ d₂ x₁ x₂ x₃ x₄ x₅ s built d s' h = absurd (cc)
passed_gates false b c d₁ d₂ x₁ x₂ x₃ x₄ x₅ s built d s' h = absurd (cc)

get-put_some :
    (j k : String) (o : Option Value) (d : Fields)
    → (k == j) ≡ false
    → get j (put_some k o d) ≡ get j d
get-put_some j k none d h = refl
get-put_some j k (some v) d h = get-put_other j k v d h

module _ (host : Host) (admission : AdmissionResult) (args : PermitArguments) where
  -- A field of the permit that no later step writes.
  issued_field :
      (k : String) (digest signature : Value)
      → ("governance_block_digest" == k) ≡ false
      → ("cnf" == k) ≡ false
      → ("aud" == k) ≡ false
      → ("subject_digest" == k) ≡ false
      → ("signature" == k) ≡ false
      → get k (
          put "signature" signature
            (put "subject_digest" digest (permit_fields host admission args)))
        ≡ get k (base_fields host admission args)
  unfolding permit_fields
  issued_field k digest signature h₁ h₂ h₃ h₄ h₅ =
      get-put_other k "signature" signature _ h₅
      ∙ get-put_other k "subject_digest" digest _ h₄
      ∙ get-put_some k "governance_block_digest" (Option.map str admission.governance_block_digest)
          _ h₁
      ∙ get-put_some k "cnf" (Option.map obj args.cnf) _ h₂
      ∙ get-put_some k "aud" (Option.map str args.aud) _ h₃

merged-carried :
    (constraints : Option Fields) (vs : Items)
    → (vs ≡ nil) ⊎ (get "reservations" (merged_constraints constraints vs) ≡ arr vs)
unfolding merged_constraints
merged-carried constraints nil = inl refl
merged-carried none (cons v vs) = inr refl
merged-carried (some d) (cons v vs) = inr (get-put_self "reservations" (arr (cons v vs)) d)

-- The constraints of the issued permit have the approver's reservations, if there are any.
reserved_field :
    (host : Host) (admission : AdmissionResult) (args : PermitArguments) (digest : String)
    (signature : Value)
    → (admission.approval_reservations ≡ nil)
      ⊎ (get_in "reservations" (
            get "constraints" (
              put "signature" signature
                (put "subject_digest" (str digest) (permit_fields host admission args))))
          ≡ arr admission.approval_reservations)
unfolding base_fields
reserved_field host admission args digest signature =
    let field_of : get "constraints" (
          put "signature" signature
            (put "subject_digest" (str digest) (permit_fields host admission args)))
        ≡ obj (merged_constraints args.constraints admission.approval_reservations) =
      issued_field host admission args "constraints" (str digest) signature refl refl refl refl
        refl in
    rw field_of (merged-carried args.constraints admission.approval_reservations)

module _ (host : Host) (permit : Fields) (digest : String) (signature : Value) where
  -- The digest of a sealed object is the one that it carries.
  sealed_digest :
      subject_digest host permit ≡ some digest
      → Option.map str (
          subject_digest host
            (put "signature" signature (put "subject_digest" (str digest) permit)))
        ≡ some (
            get "subject_digest"
              (put "signature" signature (put "subject_digest" (str digest) permit)))
  sealed_digest h =
      let sealed = put "subject_digest" (str digest) permit in
      let carried : get "subject_digest" (put "signature" signature sealed) ≡ str digest =
        get-put_other "subject_digest" "signature" signature sealed refl
        ∙ get-put_self "subject_digest" (str digest) permit in
      let own : subject_digest host (put "signature" signature sealed) ≡ some digest =
        subject_digest-signed host permit (str digest) signature ∙ h in
      rw (own, carried) refl

module _ {S : Type 0} (host : Host) (store : NonceStore S) (admission : AdmissionResult)
    (args : PermitArguments) (s : S) (d : Fields) (s' : S) where
  built_part :
      (o : Option Fields)
      → finish_issue host store args s o ≡ (permit_issued d, s')
      → (o ≡ some d) × (s' ≡ store.record_nonce s (str args.run_id) (str args.nonce))
  unfolding finish_issue
  built_part none h =
      let e : permit_raises ≡ permit_issued d = ap (λ (p : PermitIssue × S). p.0) h in absurd (cc)
  built_part (some permit) h =
      let e : permit_issued permit ≡ permit_issued d = ap (λ (p : PermitIssue × S). p.0) h in
      let e' : store.record_nonce s (str args.run_id) (str args.nonce) ≡ s' =
        ap (λ (p : PermitIssue × S). p.1) h in
      let same : permit ≡ d = cc in (ap some same, sym e')

  -- A permit is issued only for an admitted decision, by an issuer who is not the approver, with a
  -- nonce that was not seen and is recorded, and with both of `aud` and `cnf` or neither; it is
  -- bound to the admitted action and to the nonce, its constraints carry the approver's
  -- reservations, and its `subject_digest` is the digest of what is issued.
  pub issue_permit-IsIssued :
      issue_permit host store admission args s ≡ (permit_issued d, s')
      → IsIssued host store admission args s d s'
  unfolding issue_permit signed_permit base_fields
  issue_permit-IsIssued h =
      let (a, b, c, e, h₁) =
        passed_gates (is_admission admission.decision) (is_approver args.issuer args.approval)
          (store.seen s (str args.run_id) (str args.nonce)) (is_none args.aud) (is_none args.cnf) _
          _ _ _ _ s _ d s' h in
      let (signed, recorded) = built_part (signed_permit host admission args) h₁ in
      let (digest, canonical, is_d) = map-eq-some _ _ d signed in
      let permit = permit_fields host admission args in
      let sealed = put "subject_digest" (str digest) permit in
      let signature = str (args.issuer.sign sealed) in
      record {
        admitted = ground arith;
        separated = b;
        fresh = c;
        recorded = recorded;
        constrained = e;
        bound = rw (sym is_d) (
            issued_field host admission args "action_digest" (str digest) signature refl refl refl
              refl refl);
        nonce = rw (sym is_d) (
            issued_field host admission args "nonce" (str digest) signature refl refl refl refl
              refl);
        carried = rw (sym is_d) (reserved_field host admission args digest signature);
        digested = rw (sym is_d) (sealed_digest host permit digest signature canonical);
      }
