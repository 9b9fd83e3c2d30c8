-- ===== src/Grounding.antt =====
-- grounding.py: from the findings of the value planes to the grounding block of an envelope and
-- the recommended control action. The planes themselves (planes.py) are a parameter.
pub mod Laws
use a2a_compliance.Prelude.{
  String, List, Bool, Option, true, ◌∷◌, false, none, ◌&&◌, if◌then◌else◌, some, map, [], ◌||◌, not,
  ◌==◌,
}
use a2a_compliance.Verbs.{SteerVerdict, satisfied, not_satisfied, open_verdict}
use a2a_compliance.Json.{obj, put, Fields, Value, bool, str, field, get_in, end}

-- `ACTION_NO_STEER`, `ACTION_STEER`, `ACTION_HOLD` and `ACTION_ROUTE_HUMAN`
pub data Action : Type 0 where
  action_no_steer action_steer action_hold action_route_human : Action

-- `planes.DimensionFinding`
pub record DimensionFinding : Type 0 where
  pub dimension : String
  pub verdict : SteerVerdict
  pub grounded : Bool
  pub provenance : String
  pub reason : String
  pub applicable : Bool
  pub detail : Fields

-- An optional dict or list is a JSON value, `null` if it is absent.
pub record GroundingContext : Type 0 where
  pub maker_id : String
  pub proposed_action : Value
  pub policy : Value
  pub policy_text : Option String
  pub mandate : Value
  pub trajectory : Value
  pub claims : Value
  pub autonomy : Value
  pub proxies : Value

-- `interfaces.a2a_control.PlaneFinding` and `Grounding`. A parsed finding holds what the wire says,
-- so its texts and its detail are JSON values.
pub record PlaneFinding : Type 0 where
  pub plane : Value
  pub verdict : SteerVerdict
  pub detail : Value

pub record Grounding : Type 0 where
  pub verdict : SteerVerdict
  pub planes : List PlaneFinding
  pub criterion_ref : Value

pub record GroundingResult : Type 0 where
  pub findings : List DimensionFinding
  pub grounding : Option Grounding
  pub recommended_action : Action
  pub reason : String
  pub directive : Option Fields

abbrev pub is_satisfied : SteerVerdict → Bool
is_satisfied satisfied = true
is_satisfied _ = false

abbrev pub is_not_satisfied : SteerVerdict → Bool
is_not_satisfied not_satisfied = true
is_not_satisfied _ = false

abbrev pub is_open : SteerVerdict → Bool
is_open open_verdict = true
is_open _ = false

-- `[f for f in findings if p(f)]`
unfoldable pub filter : (DimensionFinding → Bool) → List DimensionFinding → List DimensionFinding
filter p [] = []
filter p (f ∷ fs) = let rest = filter p fs in if p f then f ∷ rest else rest

-- `any(p(f) for f in findings)`
unfoldable pub any : (DimensionFinding → Bool) → List DimensionFinding → Bool
any p [] = false
any p (f ∷ fs) = p f || any p fs

-- The first finding that a `for` loop returns on.
unfoldable pub first : (DimensionFinding → Bool) → List DimensionFinding → Option DimensionFinding
first p [] = none
first p (f ∷ fs) = let rest = first p fs in if p f then some f else rest

-- `_fold`
unfoldable pub fold : List DimensionFinding → SteerVerdict
unfolding filter any
fold findings =
    let applicable = filter (λ f. f.grounded && f.applicable) findings in
    if any (λ f. is_not_satisfied f.verdict) applicable
    then not_satisfied
    else if any (λ f. is_open f.verdict) applicable
    then open_verdict
    else satisfied

plane_finding : DimensionFinding → PlaneFinding
plane_finding f = record {
  plane = str f.dimension;
  verdict = f.verdict;
  detail = obj (
      put "applicable" (bool f.applicable)
        (put "reason" (str f.reason) (put "provenance" (str f.provenance) f.detail)));
}

-- `_grounding_block`
unfoldable pub grounding_block : GroundingContext → List DimensionFinding → Option Grounding
unfolding fold any plane_finding
grounding_block ctx findings =
    if not (any (λ f. f.grounded) findings)
    then none
    else some (record {
      verdict = fold findings;
      planes = map plane_finding findings;
      criterion_ref = get_in "protocol" ctx.policy;
    })

-- The conditions of the four loops of `_decide`.
abbrev pub blocks : DimensionFinding → Bool
blocks f = is_not_satisfied f.verdict && (f.dimension == "deontic" || f.dimension == "proxy")

abbrev pub over_ceiling : DimensionFinding → Bool
over_ceiling f = is_not_satisfied f.verdict && f.dimension == "escalation"

abbrev pub correctable : DimensionFinding → Bool
correctable f = is_not_satisfied f.verdict && (f.dimension == "mandate" || f.dimension == "norm")

abbrev pub unassessed : DimensionFinding → Bool
unassessed f = is_open f.verdict && f.applicable

-- One loop: its action and the reason of the finding, or what follows the loop.
abbrev pub loop : Option DimensionFinding → Action → Action × String → Action × String
loop none action next = next
loop (some f) action next = (action, f.reason)

-- `_decide`
unfoldable pub decide : List DimensionFinding → Action × String
unfolding filter first
decide findings =
    let grounded = filter (λ f. f.grounded) findings in
    loop (first blocks grounded) action_hold (
      loop (first over_ceiling grounded) action_route_human (
        loop (first correctable grounded) action_steer (
          loop (first unassessed grounded) action_route_human
            (action_no_steer, "all grounded, applicable dimensions satisfied"))))

directive_of : Action → String → Option Fields
directive_of action_steer reason = some (
    field "instruction" (str reason)
      (field "kind" (str "constrain") (field "reason_ref" (str "grounded") end)))
directive_of action_hold reason = some (
    field "scope" (str "next-action")
      (field "reason_ref" (str "grounded") (field "reason" (str reason) end)))
directive_of _ reason = none

-- `ground`, with `assess` for `planes.assess`
unfoldable pub ground_planes :
    (String → GroundingContext → DimensionFinding)
    → GroundingContext
    → List String
    → GroundingResult
unfolding grounding_block decide directive_of
ground_planes assess ctx planes =
    let findings = map (λ plane. assess plane ctx) planes in
    let (action, reason) = decide findings in
    record {
      findings = findings;
      grounding = grounding_block ctx findings;
      recommended_action = action;
      reason = reason;
      directive = directive_of action reason;
    }
