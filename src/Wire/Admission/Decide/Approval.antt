-- ===== src/Wire/Admission/Decide/Approval.antt =====
-- What an approval that counts guarantees.
use a2a_compliance.Host.{Host}
use a2a_compliance.Prelude.{
  Bool, Option, ◌≡◌, if◌then◌else◌, none, some, not, String, ap, true, false, refl,
}
use a2a_compliance.Team.Plan.{ControlPlan}
use a2a_compliance.Wire.Admission.{ApprovalFinding, AdmitArguments, approval_rejected}
use a2a_compliance.Json.{Items, Fields, obj, get, is_str, str, get_in}
use a2a_compliance.Wire.Admission.Decide.{
  ApprovalCheck, approval_counts, approval_tests, approval_findings, approval_raises,
  approval_fails, permits, recognised_scope, tuple_of,
}
use a2a_compliance.Wire.Verification.{HumanApproval, verify_human_approval, rejected, approved}
use a2a_compliance.Wire.Verification.Human.{IsApproval, verify_human_approval-IsApproval}
use a2a_compliance.Wire.Checks.Laws.{is_str-eq}

-- The approval behind an admission of a reserved kind, with its reservations.
pub record IsApprovedAction (host : Host) (p : ControlPlan) (args : AdmitArguments) (vs : Items)
    : Type 0 where
  pub receipt : Fields
  pub given : args.approval ≡ some receipt
  pub identity : String
  pub verified : IsApproval host args.ports args.trust_store none "human" (obj receipt) identity
  pub bound : get "permitted_action_digest" receipt ≡ str p.action_digest
  pub authorised :
      permits args.approver_authority p.target_kind identity
        (get_in "role" (get "approver" receipt))
      ≡ true
  pub scoped : recognised_scope (get "scope" receipt) ≡ true
  pub reserved : tuple_of (get "reservations" receipt) ≡ some vs

three :
    (a b c : Bool) (x y z : ApprovalFinding) (rest : ApprovalCheck) (vs : Items)
    → (if not a
        then approval_fails x
        else if not b
        then approval_fails y
        else if not c
        then approval_fails z
        else rest)
      ≡ approval_counts vs
    → (a ≡ true) × (b ≡ true) × (c ≡ true) × (rest ≡ approval_counts vs)
three true true true x y z rest vs h = (refl, refl, refl, h)
three true true false x y z rest vs h = cc
three true false c x y z rest vs h = cc
three false b c x y z rest vs h = cc

counted_of : Option Items → ApprovalCheck
counted_of o = elim o [ none ↦ approval_raises | some vs ↦ approval_counts vs ]

counted : (o : Option Items) (vs : Items) → counted_of o ≡ approval_counts vs → o ≡ some vs
unfolding counted_of
counted none vs h = cc
counted (some ws) vs h = let e : ws ≡ vs = cc in ap some e

module _ (host : Host) (p : ControlPlan) (args : AdmitArguments) (vs : Items) where
  tests_passed :
      (a : Fields) (i : String)
      → args.approval ≡ some a
      → IsApproval host args.ports args.trust_store none "human" (obj a) i
      → approval_tests p.action_digest p.target_kind args.approver_authority a i
        ≡ approval_counts vs
      → IsApprovedAction host p args vs
  unfolding approval_tests counted_of
  tests_passed a i given verified h =
      let (bound, authorised, scoped, reserved) =
        three (is_str (get "permitted_action_digest" a) p.action_digest)
          (permits args.approver_authority p.target_kind i (get_in "role" (get "approver" a)))
          (recognised_scope (get "scope" a)) _ _ _ (counted_of (tuple_of (get "reservations" a))) vs
          h in
      record {
        receipt = a;
        given = given;
        identity = i;
        verified = verified;
        bound = is_str-eq (get "permitted_action_digest" a) p.action_digest bound;
        authorised = authorised;
        scoped = scoped;
        reserved = counted (tuple_of (get "reservations" a)) vs reserved;
      }

  after_verification :
      (a : Fields) (v : HumanApproval)
      → args.approval ≡ some a
      → verify_human_approval host args.ports args.trust_store none "human" (obj a) ≡ v
      → (elim v [
        | rejected errors ↦ approval_fails (approval_rejected errors)
        | approved id ↦ approval_tests p.action_digest p.target_kind args.approver_authority a id
      ])
        ≡ approval_counts vs
      → IsApprovedAction host p args vs
  after_verification a (rejected errors) given e h = absurd (cc)
  after_verification a (approved i) given e h =
      tests_passed a i given
        (verify_human_approval-IsApproval host args.ports args.trust_store none "human" (obj a) i e)
        h

  counts_from :
      (o : Option Fields)
      → args.approval ≡ o
      → approval_findings host p args o ≡ approval_counts vs
      → IsApprovedAction host p args vs
  unfolding approval_findings
  counts_from none given h = absurd (cc)
  counts_from (some a) given h = after_verification a _ given refl h

  -- An approval counts only if it verifies as a human's own approval, is bound to the action's
  -- digest, comes from an approver whom the authority accepts for the kind, and has a known scope.
  pub approval_findings-IsApprovedAction :
      approval_findings host p args args.approval ≡ approval_counts vs
      → IsApprovedAction host p args vs
  approval_findings-IsApprovedAction h = counts_from args.approval refl h
