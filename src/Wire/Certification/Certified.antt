-- ===== src/Wire/Certification/Certified.antt =====
-- wire/certification.py: the inversion of `certify`.
use a2a_compliance.Wire.Certification.{
  CertifyArguments, FreshnessPort, certify_ports, is_signer, receipt_conflicts, receipts_conflicts,
  role_conflicts, find_discharge, discharges, open_obligations, freshness_reasons, stale_sources,
  same_as_permit_issuer, same_as_reconciler, stale_source, not_discharged, same_as_recorder,
  same_as_executor,
}
use a2a_compliance.Wire.Certification.Certify.{
  certified, permit_reasons, receipts_reasons, reconciliation_reasons, certify, certify_dicts,
  evidence_reasons, dicts, signed_certificate,
}
use a2a_compliance.Wire.Certification.Laws.{
  IsCertified, IsDischarge, AllDischarged, AllFresh, AreFresh, AllApart, gate, bar, unless_nil,
  permit_law, receipts_law, reconciliation_law,
}
use a2a_compliance.Wire.Chain.Laws.{same-eq, verify-dict-IsAccepted, if-nil}
use a2a_compliance.Host.{Host}
use a2a_compliance.Prelude.{
  ℕ, Option, List, ◌≡◌, String, [], some, Bool-cases, ◌∷◌, is_empty-eq-true, false, ap, is_empty,
  refl, inl, append-eq-nil, none, if◌then◌else◌, &&-eq-true, is_none, not, Option-cases, ◌==◌, inr,
  ◌&&◌,
}
use a2a_compliance.Wire.Admission.Permit.{Issuer}
use a2a_compliance.Json.{Fields, Value, get, obj, is_str, get_in}
use a2a_compliance.Wire.Checks.{Ports, reference}
use mathlib.Core.Option.{some-injective}
use a2a_compliance.Json.Equality.{same}
use a2a_compliance.Wire.Checks.Laws.{is_str-eq}

module _ (host : Host) (ports : Ports) (action : Value) where
  found-IsDischarge :
      (pool : List Value) (o : String) (d : Fields)
      → find_discharge host ports o action pool ≡ some d
      → IsDischarge host ports action pool o d
  unfolding find_discharge discharges
  found-IsDischarge [] o d h = cc
  found-IsDischarge (obj c ∷ vs) o d h = elim (Bool-cases (discharges host ports o action c)) [
    | inl e ↦
        (let same_dict : c ≡ d = some-injective c d (rw e at h) in
          let (a, bc) = &&-eq-true (is_str (get "obligation_id" c) o) _ e in
          let (b, v) = &&-eq-true (same (get "action_digest" c) action) _ bc in
          rw (← same_dict) (record {
            handed_in = inl refl;
            accepted =
                verify-dict-IsAccepted host ports "ObligationDischargeReceipt" c
                  (is_empty-eq-true _ v);
            names = is_str-eq (get "obligation_id" c) o a;
            bound = same-eq (get "action_digest" c) action b;
          }))
    | inr e ↦
        (let l = found-IsDischarge vs o d (rw e at h) in
          record {
            handed_in = inr l.handed_in;
            accepted = l.accepted;
            names = l.names;
            bound = l.bound;
          })
  ]
  found-IsDischarge (_ ∷ vs) o d h =
      let l = found-IsDischarge vs o d h in
      record {
        handed_in = inr l.handed_in;
        accepted = l.accepted;
        names = l.names;
        bound = l.bound;
      }

  discharged_law :
      (pool : List Value) (os : List String)
      → open_obligations host ports action pool os ≡ []
      → AllDischarged host ports action pool os
  unfolding open_obligations
  discharged_law pool [] h = tt
  discharged_law pool (o ∷ os) h =
      let (a, rest) =
        append-eq-nil
          (if is_none (find_discharge host ports o action pool) then not_discharged o ∷ [] else [])
          _ h in
      elim (Option-cases (find_discharge host ports o action pool)) [
        | inl e ↦ (let a' = rw e at a in cc)
        | inr (d, e) ↦ ((d, found-IsDischarge pool o d e), discharged_law pool os rest)
      ]

fresh_law :
    (f : FreshnessPort) (at : ℕ) (ss : List String) → stale_sources f at ss ≡ [] → AllFresh f at ss
unfolding stale_sources
fresh_law f at [] h = tt
fresh_law f at (s ∷ ss) h =
    let (a, rest) = append-eq-nil (if f s at then [] else stale_source s ∷ []) _ h in
    (if-nil (f s at) _ a, fresh_law f at ss rest)

freshness_law :
    (f : Option FreshnessPort) (at : ℕ) (ss : List String)
    → freshness_reasons f at ss ≡ []
    → AreFresh f at ss
unfolding freshness_reasons
freshness_law none at ss h = is_empty-eq-true ss (if-nil (is_empty ss) _ h)
freshness_law (some f) at ss h = fresh_law f at ss h

apart_law :
    (signer : Issuer) (ds : List Fields) → receipts_conflicts signer ds ≡ [] → AllApart signer ds
unfolding receipts_conflicts receipt_conflicts
apart_law signer [] h = tt
apart_law signer (d ∷ ds) h =
    let (a, rest) = append-eq-nil (receipt_conflicts signer d) (receipts_conflicts signer ds) h in
    let (x, y) =
      append-eq-nil
        (if not (signer.identity == "") && is_str (get_in "id" (get "executor" d)) signer.identity
          then same_as_executor (get_in "id" (get "executor" d)) ∷ []
          else [])
        _ a in
    (unless_nil (is_signer signer d) same_as_recorder y, apart_law signer ds rest)

conflicts_law :
    (signer : Issuer) (permit : Fields) (ds : List Fields) (r : Fields) (approval : Option Fields)
    → role_conflicts signer permit ds r approval ≡ []
    → (is_signer signer permit ≡ false) × (is_signer signer r ≡ false) × AllApart signer ds
unfolding role_conflicts
conflicts_law signer permit ds r approval h =
    let (a, r1) =
      append-eq-nil (if is_signer signer permit then same_as_permit_issuer ∷ [] else []) _ h in
    let (b, r2) = append-eq-nil (if is_signer signer r then same_as_reconciler ∷ [] else []) _ r1 in
    let (c, d) = append-eq-nil (receipts_conflicts signer ds) _ r2 in
    (
      unless_nil (is_signer signer permit) _ a,
      unless_nil (is_signer signer r) _ b,
      apart_law signer ds c,
    )

certified-injective : (a b : Fields) → certified a ≡ certified b → a ≡ b
certified-injective a b h = cc

module _ (host : Host) (args : CertifyArguments) where
  signed_law :
      (o : Option Fields) (c : Fields) → signed_certificate host args o ≡ certified c → o ≡ some c
  unfolding signed_certificate
  signed_law none c h = cc
  signed_law (some d) c h = ap some (certified-injective d c h)

  dicts_law :
      (p : Fields) (receipts : List Value) (r c : Fields)
      → certify_dicts host args p receipts r ≡ certified c
      → IsCertified host args p receipts r c
  unfolding certify_dicts evidence_reasons
  dicts_law p receipts r c h =
      let ports = certify_ports args in
      let action = get "action_digest" p in
      let (a1, h1) = gate (is_empty (permit_reasons host ports p)) _ _ h in
      let (a2, h2) = bar (is_empty receipts) _ _ h1 in
      let (a3, h3) = gate (is_empty (receipts_reasons host ports action receipts)) _ _ h2 in
      let (a4, h4) = gate (is_empty (reconciliation_reasons host ports action r)) _ _ h3 in
      let (a5, h5) = gate (is_empty (evidence_reasons host args p (dicts receipts) r)) _ _ h4 in
      let (b1, e1) =
        append-eq-nil
          (open_obligations host ports action args.discharge_receipts args.blocking_obligations) _
          (is_empty-eq-true _ a5) in
      let (b2, b3) =
        append-eq-nil (freshness_reasons args.freshness (reference ports) args.mandatory_sources) _
          e1 in
      let (ok, grade) = permit_law host ports p (is_empty-eq-true _ a1) in
      let (rok, bound, clean) = reconciliation_law host ports action r (is_empty-eq-true _ a4) in
      let (apart1, apart2, apart3) =
        conflicts_law args.signer p (dicts receipts) r args.approval b3 in
      record {
        permit_ok = ok;
        graded = grade;
        dispatched = λ e. (let a2' = rw e at a2 in cc);
        receipts_ok = receipts_law host ports action receipts (is_empty-eq-true _ a3);
        reconciliation_ok = rok;
        reconciled = bound;
        clean = clean;
        discharged =
            discharged_law host ports action args.discharge_receipts args.blocking_obligations b1;
        fresh = freshness_law args.freshness (reference ports) args.mandatory_sources b2;
        not_issuer = apart1;
        not_reconciler = apart2;
        not_recorder = apart3;
        signed = signed_law _ c h5;
      }

  -- A certificate is issued only for a verified permit of an enforcement grade, at least one tool
  -- receipt, each of them verified and bound to the permit's action, a verified reconciliation of
  -- the same action that is clean, a verified discharge receipt among those handed in for every
  -- blocking obligation and this action, mandatory sources that are all fresh, and a signer whose
  -- identity and key are those of neither the permit's issuer, nor the reconciler, nor a recorder
  -- of a receipt; and it is the signed object of the fields of this evidence.
  pub certify-IsCertified :
      (permit : Value) (receipts : List Value) (reconciliation : Value) (c : Fields)
      → certify host args permit receipts reconciliation ≡ certified c
      → (p : Fields) × (r : Fields) × (permit ≡ obj p)
        × (reconciliation ≡ obj r)
        × IsCertified host args p receipts r c
  unfolding certify
  certify-IsCertified (obj p) receipts (obj r) c h = (p, r, refl, refl, dicts_law p receipts r c h)
  certify-IsCertified (obj p) receipts _ c h = cc
  certify-IsCertified _ receipts reconciliation c h = cc
