-- ===== src/Wire/Admission/Decide/Laws.antt =====
-- What the decision of `admit` guarantees.
use a2a_compliance.Host.{Host}
use a2a_compliance.Json.{Value, Fields, Items, has, nil}
use a2a_compliance.Prelude.{
  String, List, ◌≡◌, Option, contains, [], false, ◌≢◌, some, ◌∷◌, ◌||◌, refl, true, append-eq-nil,
  none,
}
use a2a_compliance.Team.Plan.{ControlPlan}
use a2a_compliance.Wire.Admission.{
  AdmitArguments, AdmissionResult, find, wire_ports, AdmissionReason, is_unresolved,
  index_and_verify, decision_admitted, is_failed, approval_finding,
}
use a2a_compliance.Wire.Admission.Decide.{
  plan_reasons, conclude, ApprovalCheck, admit_within, approval_findings, approval_raises,
  approval_fails, approval_counts,
}
use a2a_compliance.Governance.{SteerDecision, route_human, refuse, steer}
use a2a_compliance.Wire.Admission.Decide.Receipts.{
  IsEvidence, preflight_reasons-IsSettled, index_and_verify-IsEvidence,
  obligation_reasons-acknowledged,
}
use a2a_compliance.Lifecycle.Preview.{required_tools}
use a2a_compliance.Wire.Admission.Decide.Approval.{
  IsApprovedAction, approval_findings-IsApprovedAction,
}
use a2a_compliance.Lifecycle.Owners.{preflight_tools}
use a2a_compliance.Governance.Signed.{SignedGovernanceBlock}
use a2a_compliance.Wire.Admission.Decide.Pinned.{IsPinned}
use mathlib.Core.Option.{some-injective}

-- The evidence for one preflight tool.
pub record IsCovered (host : Host) (str_of : Value → String) (p : ControlPlan)
    (args : AdmitArguments) (receipts : List Value) (n : String) : Type 0 where
  pub receipt : Fields
  pub evidence : IsEvidence host str_of (wire_ports args) p.action_digest receipts n receipt
  pub resolved : is_unresolved (some receipt) ≡ false
  pub not_failed : is_failed (some receipt) ≡ false

-- Everything that an admission of a plan stands for.
pub record IsAdmission (host : Host) (str_of : Value → String) (p : ControlPlan)
    (args : AdmitArguments) (receipts : List Value) (r : AdmissionResult) : Type 0 where
  pub digest : r.action_digest ≡ p.action_digest
  pub not_prohibited : contains args.governance.prohibited p.target_kind ≡ false
  pub declared :
      (has p.target_kind args.governance.reserved
        || contains args.governance.action_kinds p.target_kind)
      ≡ true
  pub approved :
      has p.target_kind args.governance.reserved ≡ true
      → IsApprovedAction host p args r.approval_reservations
  pub pinned :
      (b : SignedGovernanceBlock)
      → args.signed_governance_block ≡ some b
      → (d : String) × (r.governance_block_digest ≡ some d)
        × IsPinned host args.governance b p.maker_id args.trust_store args.policy_author_role d
  pub all_valid :
      (index_and_verify host str_of (wire_ports args) p.action_digest receipts []).1 ≡ []
  pub covered :
      (n : String)
      → contains (required_tools p.profile preflight_tools) n ≡ true
      → IsCovered host str_of p args receipts n
  pub acknowledged :
      (o : String)
      → contains p.obligations o ≡ true
      → contains args.acknowledged_obligations o ≡ true

module _ (host : Host) (str_of : Value → String) (p : ControlPlan) (args : AdmitArguments)
    (receipts : List Value) where
  nothing_found : (n : String) (r : Fields) → find n [] ≢ some r
  nothing_found n r h = cc

  pub reasons_none :
      plan_reasons host str_of p args receipts ≡ []
      → ((index_and_verify host str_of (wire_ports args) p.action_digest receipts []).1 ≡ [])
        × ((n : String)
            → contains (required_tools p.profile preflight_tools) n ≡ true
            → IsCovered host str_of p args receipts n)
        × ((o : String)
            → contains p.obligations o ≡ true
            → contains args.acknowledged_obligations o ≡ true)
  unfolding plan_reasons
  reasons_none h =
      let names = required_tools p.profile preflight_tools in
      let (indexed, invalid) =
        index_and_verify host str_of (wire_ports args) p.action_digest receipts [] in
      let (h₁, h₂) = append-eq-nil _ _ h in
      let (valid, settled) = preflight_reasons-IsSettled names indexed invalid h₁ in
      (
        valid,
        λ n c.
            let s = settled n c in
            record {
              receipt = s.receipt;
              evidence =
                  index_and_verify-IsEvidence host str_of (wire_ports args) p.action_digest receipts
                    receipts [] (λ v m. m) (λ m r e. absurd (nothing_found m r e)) n s.receipt
                    s.found;
              resolved = s.resolved;
              not_failed = s.not_failed;
            },
        λ o c. obligation_reasons-acknowledged p.obligations args.acknowledged_obligations o h₂ c,
      )

  -- An admitted conclusion has no reasons and carries the reservations and the digest.
  concluded :
      (pinned : Option String) (reasons : List AdmissionReason) (vs : Items)
      → (conclude p pinned reasons vs).decision ≡ decision_admitted
      → (reasons ≡ [])
        × ((conclude p pinned reasons vs).approval_reservations ≡ vs)
        × ((conclude p pinned reasons vs).governance_block_digest ≡ pinned)
        × ((conclude p pinned reasons vs).action_digest ≡ p.action_digest)
  unfolding conclude
  concluded pinned [] vs h = (refl, refl, refl, refl)
  concluded pinned (e ∷ es) vs h = absurd (cc)

  -- What the part of `admit` behind the governance checks guarantees.
  pub record IsWithin (decision : SteerDecision) (pinned : Option String) (r : AdmissionResult)
      : Type 0 where
    pub reasons : plan_reasons host str_of p args receipts ≡ []
    pub digest : r.action_digest ≡ p.action_digest
    pub carried : r.governance_block_digest ≡ pinned
    pub approved : decision ≡ route_human → IsApprovedAction host p args r.approval_reservations

  steered :
      (decision : SteerDecision) (pinned : Option String) (vs : Items) (r : AdmissionResult)
      → (decision ≡ route_human → IsApprovedAction host p args vs)
      → conclude p pinned (plan_reasons host str_of p args receipts) vs ≡ r
      → r.decision ≡ decision_admitted
      → IsWithin decision pinned r
  steered decision pinned vs r approval e h =
      let reasons = plan_reasons host str_of p args receipts in
      let h' : (conclude p pinned reasons vs).decision ≡ decision_admitted = rw e h in
      let (none_left, reservations, carried, digest) = concluded pinned reasons vs h' in
      record {
        reasons = none_left;
        digest = rw e at digest;
        carried = rw e at carried;
        approved = λ d.
            let vs' : r.approval_reservations ≡ vs = rw e at reservations in rw vs' (approval d);
      }

  counted_within :
      (pinned : Option String) (c : ApprovalCheck) (r : AdmissionResult)
      → approval_findings host p args args.approval ≡ c
      → (elim c [
        | approval_raises ↦ none
        | approval_fails e ↦
            some (
              conclude p pinned (approval_finding e ∷ plan_reasons host str_of p args receipts) nil)
        | approval_counts vs ↦
            some (conclude p pinned (plan_reasons host str_of p args receipts) vs)
      ])
        ≡ some r
      → r.decision ≡ decision_admitted
      → IsWithin route_human pinned r
  unfolding conclude
  counted_within pinned approval_raises r found e h = absurd (cc)
  counted_within pinned (approval_fails f) r found e h = absurd (cc)
  counted_within pinned (approval_counts vs) r found e h =
      steered route_human pinned vs r (λ d. approval_findings-IsApprovedAction host p args vs found)
        (some-injective _ r e) h

  pub within :
      (decision : SteerDecision) (pinned : Option String) (r : AdmissionResult)
      → decision ≢ refuse
      → admit_within host str_of p args receipts decision pinned ≡ some r
      → r.decision ≡ decision_admitted
      → IsWithin decision pinned r
  unfolding admit_within
  within route_human pinned r d e h =
      counted_within pinned (approval_findings host p args args.approval) r refl e h
  within steer pinned r d e h =
      steered steer pinned nil r (λ d. absurd (cc)) (some-injective _ r e) h
  within refuse pinned r d e h = absurd (d refl)
