-- ===== src/Team/Plan/Laws.antt =====
-- What a plan says of its readiness.
use a2a_compliance.Host.{Host}
use a2a_compliance.Team.Plan.Supply.{IsSupplied, missing_required_of-IsSupplied}
use a2a_compliance.Team.Plan.{
  CapabilityInventory, ControlRequest, plan, ControlPlan, protocol, plan_with, TeamProfile,
  ready_of, missing_required_of,
}
use a2a_compliance.Governance.{may_steer, SteerDecision, rule, is_steer}
use a2a_compliance.Prelude.{
  Option, ◌≡◌, some, true, ◌↔◌, [], is_none, false, ◌⊎◌, List, map-eq-some, String, sym, arith, inl,
  inr,
}
use a2a_compliance.Grounding.{GroundingResult}

ready_iff :
    (decision : SteerDecision) (lack : List String) (result : Option GroundingResult)
    (profile : TeamProfile)
    → (ready_of decision lack result profile ≡ true) ↔ (
        (is_steer decision ≡ true)
        × (lack ≡ [])
        × ((is_none result ≡ false) ⊎ (profile ≡ protocol)))
ready_iff decision lack result profile = ground arith

needed_iff : {S A B C D : Type 0} → (A ↔ (C ⊎ B)) → (S × A × (D ⊎ C)) ↔ (S × (C ⊎ (B × D)))
needed_iff lack = (
  λ (s, a, r). (
    s,
    elim (lack.0 a) [ inl c ↦ inl c | inr b ↦ elim r [ inl d ↦ inr (b, d) | inr c ↦ inl c ] ],
  ),
  λ (s, h). elim h [ inl c ↦ (s, lack.1 (inl c), inr c) | inr p ↦ (s, lack.1 (inr p.0), inl p.1) ],
)

module _ (host : Host) (inv : CapabilityInventory) (request : ControlRequest) where
  -- A plan is ready exactly if the boundary lets its kind steer and, but for the protocol profile,
  -- a grounding result is given and the inventory holds every required capability of every role of
  -- the team and every tool and skill that the request names.
  pub plan-ready :
      (result : Option GroundingResult) (p : ControlPlan)
      → plan host inv request result ≡ some p
      → (p.ready ≡ true) ↔ (
          (may_steer request.governance request.target_kind ≡ true)
          × ((request.profile ≡ protocol) ⊎ (IsSupplied inv request × (is_none result ≡ false))))
  unfolding plan plan_with may_steer
  plan-ready result p h =
      let (digest, _, e) = map-eq-some _ _ p h in
      let lack = missing_required_of inv request in
      let ready =
        ready_iff (rule request.governance request.target_kind).decision lack result
          request.profile in
      let needed = needed_iff (missing_required_of-IsSupplied inv request) in
      rw (sym e) (λ r. needed.0 (ready.0 r), λ r. ready.1 (needed.1 r))
