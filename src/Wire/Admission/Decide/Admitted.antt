-- ===== src/Wire/Admission/Decide/Admitted.antt =====
-- The decision of `admit` as a whole.
use a2a_compliance.Governance.{SteerDecision, rule, refuse, steer, route_human}
use a2a_compliance.Host.{Host}
use a2a_compliance.Wire.Admission.Decide.{
  admit, admit_checked, GovernanceCheck, governance_block_findings, block_passes, block_fails,
  block_raises,
}
use a2a_compliance.Wire.Admission.{
  AdmissionResult, decision_refused, AdmitArguments, decision_admitted,
}
use a2a_compliance.Json.{Value}
use a2a_compliance.Prelude.{Option, String, ◌≡◌, List, some, ◌≢◌, none, refl, ◌∙◌}
use a2a_compliance.Team.Plan.{ControlPlan}
use a2a_compliance.Governance.Signed.{SignedGovernanceBlock}
use a2a_compliance.Wire.Admission.Decide.Laws.{IsAdmission, IsWithin, reasons_none, within}
use a2a_compliance.Wire.Admission.Decide.Pinned.{IsPinned, governance_block_findings-IsPinned}
use a2a_compliance.Governance.Laws.{boundary_of, rule-route_human}
use mathlib.Core.Option.{some-injective}

not_refused :
    (decision : SteerDecision) (x r : AdmissionResult) (rest : Option AdmissionResult)
    → x.decision ≡ decision_refused
    → (elim decision [ refuse ↦ some x | _ ↦ rest ]) ≡ some r
    → r.decision ≡ decision_admitted
    → (decision ≢ refuse) × (rest ≡ some r)
not_refused steer x r rest ex e h = (λ d. cc, e)
not_refused route_human x r rest ex e h = (λ d. cc, e)
not_refused refuse x r rest ex e h = absurd (cc)

module _ (host : Host) (str_of : Value → String) (p : ControlPlan) (args : AdmitArguments)
    (receipts : List Value) (r : AdmissionResult) where
  checked :
      (decision : SteerDecision) (c : GovernanceCheck)
      → decision ≢ refuse
      → admit_checked host str_of p args receipts decision c ≡ some r
      → r.decision ≡ decision_admitted
      → (pinned : Option String) × (c ≡ block_passes pinned)
        × IsWithin host str_of p args receipts decision pinned r
  unfolding admit_checked
  checked decision block_raises d e h = absurd (cc)
  checked decision (block_fails f) d e h = absurd (cc)
  checked decision (block_passes pinned) d e h =
      (pinned, refl, within host str_of p args receipts decision pinned r d e h)

  governance-IsPinned :
      (signed : Option SignedGovernanceBlock) (b : SignedGovernanceBlock) (pinned : Option String)
      → governance_block_findings host args.governance signed p.maker_id args.trust_store
          args.policy_author_role
        ≡ block_passes pinned
      → signed ≡ some b
      → (d : String) × (pinned ≡ some d)
        × IsPinned host args.governance b p.maker_id args.trust_store args.policy_author_role d
  governance-IsPinned none b pinned h e = absurd (cc)
  governance-IsPinned (some b') b pinned h e =
      let same : b' ≡ b = some-injective b' b e in
      governance_block_findings-IsPinned host args.governance b p.maker_id args.trust_store
        args.policy_author_role pinned (rw same at h)

  -- An admitted plan has a kind that is declared and not prohibited; a reserved kind has a human's
  -- verified approval of this very action, whose reservations the result carries; a signed
  -- governance block is the one in use, signed by an author other than the maker, and its digest
  -- is carried; no receipt given is invalid and each required preflight tool has a verified
  -- receipt bound to the action that is not open, erroneous or failed; every obligation is
  -- acknowledged.
  pub admit-IsAdmission :
      admit host str_of p args receipts ≡ some r
      → r.decision ≡ decision_admitted
      → IsAdmission host str_of p args receipts r
  unfolding admit
  admit-IsAdmission e h =
      let ruling = rule args.governance p.target_kind in
      let (steered, rest) = not_refused ruling.decision _ r _ refl e h in
      let (pinned, passes, part) = checked ruling.decision _ steered rest h in
      let (clear, known) = boundary_of args.governance p.target_kind steered in
      let (valid, covered, acknowledged) = reasons_none host str_of p args receipts part.reasons in
      record {
        digest = part.digest;
        not_prohibited = clear;
        declared = known;
        approved = λ reserved.
            part.approved ((rule-route_human args.governance p.target_kind).1 (clear, reserved));
        pinned = λ b signed.
            let (d, ed, is_pinned) =
              governance-IsPinned args.signed_governance_block b pinned passes signed in
            (d, part.carried ∙ ed, is_pinned);
        all_valid = valid;
        covered = covered;
        acknowledged = acknowledged;
      }
