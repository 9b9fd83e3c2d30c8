-- ===== src/Channel/Grounded.antt =====
-- channel.py: `ground_and_steer`, over the derivation of grounding.py.
use Prim.Native.Char.{Char}
use a2a_compliance.Channel.{
  ComplianceAgent, AgentWorld, Dispatch, Fresh, denied, surfaced, authorize_verb, routed_to_human,
  needs_confirmation,
}
use a2a_compliance.Channel.Sending.{hold, issue_directive}
use a2a_compliance.Grounding.{
  GroundingResult, GroundingContext, Action, DimensionFinding, ground_planes, action_hold,
  action_steer, action_route_human, action_no_steer,
}
use a2a_compliance.Host.{Host}
use a2a_compliance.Prelude.{some, Bool, none, String, Option, List}
use a2a_compliance.Json.{Fields}
use a2a_compliance.Verbs.{Verb}

abbrev with_grounding : {S : Type 0} → GroundingResult → Dispatch S → Dispatch S
with_grounding result (none, w) = (none, w)
with_grounding result (some r, w) = (some (record r { grounding_result = some result }), w)

module _ (agent : ComplianceAgent) (host : Host) {S : Type 0} (isalnum : Char → Bool)
    (stores : Fields → Bool) where
  -- The verb that the recommended action is mapped to.
  unfoldable pub steer_by :
      Fresh → String → Option String → GroundingResult → Action → AgentWorld S → Dispatch S
  steer_by fresh maker target_kind result action_hold w = with_grounding result (
      hold agent host isalnum stores fresh maker "next-action" (some "grounded") none
        result.grounding w)
  steer_by fresh maker target_kind result action_steer w = with_grounding result (
      issue_directive agent host isalnum stores fresh maker result.reason "constrain" target_kind
        (some "grounded") result.grounding w)
  steer_by fresh maker target_kind result action_route_human w = with_grounding result (
    some (
        surfaced (authorize_verb agent Verb.issue_directive maker) (routed_to_human result.reason)),
    w,
  )
  steer_by fresh maker target_kind result action_no_steer w = with_grounding result (
    some (record (denied (authorize_verb agent Verb.query_state maker) needs_confirmation) {
      denied_reason = none;
    }),
    w,
  )

  unfoldable pub ground_and_steer :
      (String → GroundingContext → DimensionFinding)
      → Fresh
      → String
      → GroundingContext
      → Option String
      → List String
      → AgentWorld S
      → Dispatch S
  unfolding steer_by
  ground_and_steer assess fresh maker context target_kind planes w =
      let result = ground_planes assess context planes in
      steer_by fresh maker target_kind result result.recommended_action w
