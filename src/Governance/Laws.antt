-- ===== src/Governance/Laws.antt =====
-- What `rule` decides.
use a2a_compliance.Governance.{
  rule, may_steer, GovernanceBlock, String, true, route_human, contains, false, refuse,
}
use a2a_compliance.Prelude.{◌≡◌, ◌↔◌, arith, ◌≢◌, ◌||◌}
use a2a_compliance.Json.{has}

-- A kind is steered exactly if it is declared in `actions` and neither prohibited nor reserved.
pub may_steer_iff :
    (b : GovernanceBlock) (kind : String)
    → (may_steer b kind ≡ true) ↔ (
        (contains b.prohibited kind ≡ false)
        × (has kind b.reserved ≡ false)
        × (contains b.action_kinds kind ≡ true))
unfolding may_steer rule
may_steer_iff b kind = ground arith

-- The human is asked exactly for a kind that is reserved and not prohibited.
pub rule-route_human :
    (b : GovernanceBlock) (kind : String)
    → ((rule b kind).decision ≡ route_human)
      ↔ ((contains b.prohibited kind ≡ false) × (has kind b.reserved ≡ true))
unfolding rule
rule-route_human b kind = ground arith

-- A kind that is not refused is not prohibited, and it is reserved or declared.
pub boundary_of :
    (b : GovernanceBlock) (kind : String)
    → (rule b kind).decision ≢ refuse
    → (contains b.prohibited kind ≡ false)
      × ((has kind b.reserved || contains b.action_kinds kind) ≡ true)
unfolding rule
boundary_of b kind h = (ground arith, ground arith)
