-- ===== src/Wire/Chain/Audit.antt =====
-- wire/audit_chain.py: what an accepted run consists of.
use a2a_compliance.Wire.Chain.{
  audit_chain_verify, reference_errors, plain_chain, part_errors, object_errors, digests_of,
  value_digest, no_tool_receipts, not_accepted, stage_chain, tool_chain, other_permit,
  other_reconciliation, other_receipts,
}
use a2a_compliance.Wire.Chain.Laws.{verify_chain-IsLinked, IsLinked, same-eq, if-nil}
use a2a_compliance.Wire.Verification.Laws.{IsAccepted, verify-IsAccepted}
use a2a_compliance.Host.{Host}
use a2a_compliance.Wire.Checks.{Ports}
use a2a_compliance.Json.{Value, Fields, obj, get_in, null, arr}
use a2a_compliance.Prelude.{
  String, List, ◌≡◌, if◌then◌else◌, [], is_empty, ◌≢◌, map-eq-nil, map, Bool-cases, ◌∷◌, inr, none,
  append-eq-nil, inl, is_empty-eq-true,
}
use a2a_compliance.Wire.Verification.{verify}
use a2a_compliance.Json.Equality.{same}

-- A run whose audit found nothing.
pub record IsAudited (host : Host) (ports : Ports) (permit : Value) (receipts : List Value)
    (reconciliation certificate : Value) (stages : List Value) : Type 0 where
  pub permit_dict : (d : Fields) × (permit ≡ obj d) × IsAccepted host ports d "ExecutionPermit"
  pub reconciliation_dict :
      (d : Fields) × (reconciliation ≡ obj d) × IsAccepted host ports d "Reconciliation"
  pub certificate_dict :
      (d : Fields) × (certificate ≡ obj d) × IsAccepted host ports d "OversightCertificate"
  pub tool_links : (receipts ≢ []) × IsLinked host ports "ToolReceipt" null receipts
  pub stage_links : IsLinked host ports "StageReceipt" null stages
  pub permit_ref : get_in "permit_digest" certificate ≡ value_digest host permit
  pub reconciliation_ref :
      get_in "reconciliation_digest" certificate ≡ value_digest host reconciliation
  pub receipt_refs : get_in "tool_receipt_digests" certificate ≡ arr (digests_of host receipts)

module _ (host : Host) (ports : Ports) where
  object_errors-nil :
      (label obj_type : String) (v : Value)
      → object_errors host ports label obj_type v ≡ []
      → (d : Fields) × (v ≡ obj d) × IsAccepted host ports d obj_type
  unfolding object_errors
  object_errors-nil label obj_type (obj d) h =
      verify-IsAccepted host ports (obj d) obj_type
        (map-eq-nil (not_accepted label) (verify host ports (obj d) obj_type) h)
  object_errors-nil label obj_type _ h = cc

  tool_part :
      (receipts : List Value)
      → (if is_empty receipts
          then no_tool_receipts ∷ []
          else map tool_chain (plain_chain host ports "ToolReceipt" receipts))
        ≡ []
      → (receipts ≢ []) × IsLinked host ports "ToolReceipt" null receipts
  tool_part [] h = cc
  tool_part (v ∷ vs) h =
      verify_chain-IsLinked host ports "ToolReceipt" none (v ∷ vs)
        (map-eq-nil tool_chain (plain_chain host ports "ToolReceipt" (v ∷ vs)) h)

  stage_part :
      (stages : List Value)
      → (if is_empty stages
          then []
          else map stage_chain (plain_chain host ports "StageReceipt" stages))
        ≡ []
      → IsLinked host ports "StageReceipt" null stages
  stage_part [] h = tt
  stage_part (v ∷ vs) h =
      (verify_chain-IsLinked host ports "StageReceipt" none (v ∷ vs)
        (map-eq-nil stage_chain (plain_chain host ports "StageReceipt" (v ∷ vs)) h)).1

  references :
      (permit : Value) (receipts : List Value) (reconciliation certificate : Value)
      → reference_errors host permit receipts reconciliation certificate ≡ []
      → (get_in "permit_digest" certificate ≡ value_digest host permit)
        × (get_in "reconciliation_digest" certificate ≡ value_digest host reconciliation)
        × (get_in "tool_receipt_digests" certificate ≡ arr (digests_of host receipts))
  unfolding reference_errors
  references permit receipts reconciliation certificate h =
      let (a, bc) =
        append-eq-nil
          (if same (get_in "permit_digest" certificate) (value_digest host permit)
            then []
            else other_permit ∷ [])
          _ h in
      let (b, c) =
        append-eq-nil
          (if same (get_in "reconciliation_digest" certificate) (value_digest host reconciliation)
            then []
            else other_reconciliation ∷ [])
          _ bc in
      (
        same-eq _ _ (if-nil _ other_permit a),
        same-eq _ _ (if-nil _ other_reconciliation b),
        same-eq _ _ (if-nil _ other_receipts c),
      )

  -- A run that the audit accepts has an accepted permit, reconciliation and certificate, an
  -- accepted and linked chain of at least one tool receipt and of its stage receipts, and a
  -- certificate that names the digests of the permit, of the reconciliation and of exactly the tool
  -- receipts, in their order.
  pub audit_chain_verify-IsAudited :
      (permit : Value) (receipts : List Value) (reconciliation certificate : Value)
      (stages : List Value)
      → audit_chain_verify host ports permit receipts reconciliation certificate stages ≡ []
      → IsAudited host ports permit receipts reconciliation certificate stages
  unfolding audit_chain_verify part_errors
  audit_chain_verify-IsAudited permit receipts reconciliation certificate stages h =
      elim (Bool-cases
        (is_empty (part_errors host ports permit receipts reconciliation certificate stages))) [
          | inr e ↦
              (let parts =
                  part_errors host ports permit receipts reconciliation certificate stages in
                let h' : parts ≡ [] = rw e at h in let e' = rw h' at e in cc)
          | inl e ↦
              (let parts =
                  is_empty-eq-true
                    (part_errors host ports permit receipts reconciliation certificate stages) e in
                let (s, r1) =
                  append-eq-nil
                    (if is_empty stages
                      then []
                      else map stage_chain (plain_chain host ports "StageReceipt" stages))
                    _ parts in
                let (t, r2) =
                  append-eq-nil
                    (if is_empty receipts
                      then no_tool_receipts ∷ []
                      else map tool_chain (plain_chain host ports "ToolReceipt" receipts))
                    _ r1 in
                let (p, r3) =
                  append-eq-nil (object_errors host ports "permit" "ExecutionPermit" permit) _ r2 in
                let (r, c) =
                  append-eq-nil
                    (object_errors host ports "reconciliation" "Reconciliation" reconciliation) _
                    r3 in
                let (ref1, ref2, ref3) =
                  references permit receipts reconciliation certificate (rw e at h) in
                record {
                  permit_dict = object_errors-nil "permit" "ExecutionPermit" permit p;
                  reconciliation_dict =
                      object_errors-nil "reconciliation" "Reconciliation" reconciliation r;
                  certificate_dict =
                      object_errors-nil "certificate" "OversightCertificate" certificate c;
                  tool_links = tool_part receipts t;
                  stage_links = stage_part stages s;
                  permit_ref = ref1;
                  reconciliation_ref = ref2;
                  receipt_refs = ref3;
                })
        ]
