-- ===== src/Channel/Sending.antt =====
-- channel.py: the verbs of a compliance agent.
use Prim.Native.Char.{Char}
use a2a_compliance.Channel.{
  ComplianceAgent, AgentWorld, Dispatch, Fresh, denied, surfaced, sent, outgoing, send,
  authorize_verb, HaltDenial, denied_by_authority, denied_by_ruling, halt_denied,
  needs_confirmation,
}
use a2a_compliance.Channel.Approval.{verify_halt_approval}
use a2a_compliance.Host.{Host, DateTime}
use a2a_compliance.Prelude.{Bool, String, Option, if◌then◌else◌, List, not, some, none, true}
use a2a_compliance.Json.{Fields}
use a2a_compliance.Verbs.{Verb}
use a2a_compliance.Authority.{Authorization}
use a2a_compliance.Nonces.{NonceStore}
use a2a_compliance.Grounding.{Grounding}
use a2a_compliance.Governance.{
  GovernanceBlock, SteerRuling, SteerDecision, rule, refuse, route_human, steer,
}
use a2a_compliance.Envelope.{
  resume_body, query_state_body, issue_directive_body, hold_body, Message, halt_body, halt_digest,
}
use a2a_compliance.Envelope.Parser.{parse_all}
use a2a_compliance.Inbox.{poll}
use a2a_compliance.Wire.Trust.{TrustStore}
use a2a_compliance.Wire.Checks.{Ports}

-- What the approval of a halt is verified against.
abbrev pub halt_ports : ComplianceAgent → Fresh → Option DateTime → TrustStore → Ports
halt_ports agent fresh now trust = record {
  trust_store = some trust;
  revocation_store = agent.revocation_store;
  now = now;
  clock = fresh.clock;
}

-- The ruling of the maker's block on the target kind, if there is a block and a kind.
ruling_of : Option GovernanceBlock → Option String → Option SteerRuling
ruling_of (some block) (some kind) = some (rule block kind)
ruling_of _ _ = none

module _ (agent : ComplianceAgent) (host : Host) {S : Type 0} (isalnum : Char → Bool)
    (stores : Fields → Bool) where
  abbrev post_verb : Fresh → String → Verb → Fields → Option Grounding → AgentWorld S → Dispatch S
  post_verb fresh maker verb body grounding w =
      let auth = authorize_verb agent verb maker in
      let msg = outgoing agent fresh auth maker verb body grounding in
      send agent host isalnum stores fresh maker msg (sent auth msg) w

  -- The two steps that every verb begins with, with the rest under the name `act`.
  abbrev if_allowed : Verb → String → AgentWorld S → Dispatch S → Dispatch S
  if_allowed verb maker w act =
      let auth = authorize_verb agent verb maker in
      if not auth.allowed then (some (denied auth (denied_by_authority auth.reason)), w) else act

  unfoldable pub query_state : Fresh → String → List String → AgentWorld S → Dispatch S
  query_state fresh maker include w =
      if_allowed Verb.query_state maker w
        (post_verb fresh maker Verb.query_state (query_state_body include) none w)

  with_ruling : Option SteerRuling → Dispatch S → Dispatch S
  with_ruling ruling (none, w) = (none, w)
  with_ruling ruling (some r, w) = (some (record r { ruling = ruling }), w)

  ruled : Authorization → SteerRuling → SteerDecision → AgentWorld S → Dispatch S → Dispatch S
  unfolding with_ruling
  ruled auth ruling refuse w act =
      with_ruling (some ruling) (some (denied auth (denied_by_ruling ruling.reason)), w)
  ruled auth ruling route_human w act =
      with_ruling (some ruling) (some (surfaced auth (denied_by_ruling ruling.reason)), w)
  ruled auth ruling steer w act = with_ruling (some ruling) act

  after_ruling : Authorization → Option SteerRuling → AgentWorld S → Dispatch S → Dispatch S
  unfolding ruled
  after_ruling auth none w act = act
  after_ruling auth (some ruling) w act = ruled auth ruling ruling.decision w act

  unfoldable pub issue_directive :
      Fresh
      → String
      → String
      → String
      → Option String
      → Option String
      → Option Grounding
      → AgentWorld S
      → Dispatch S
  unfolding after_ruling ruling_of
  issue_directive fresh maker instruction kind target_kind reason_ref grounding w =
      if_allowed Verb.issue_directive maker w (
        after_ruling (authorize_verb agent Verb.issue_directive maker)
          (ruling_of (agent.maker_blocks maker) target_kind) w
          (post_verb fresh maker Verb.issue_directive
            (issue_directive_body instruction kind reason_ref) grounding w))

  unfoldable pub hold :
      Fresh
      → String
      → String
      → Option String
      → Option (List String)
      → Option Grounding
      → AgentWorld S
      → Dispatch S
  hold fresh maker scope reason_ref conditions grounding w =
      if_allowed Verb.hold maker w
        (post_verb fresh maker Verb.hold (hold_body scope reason_ref conditions) grounding w)

  unfoldable pub resume : Fresh → String → String → Option String → AgentWorld S → Dispatch S
  resume fresh maker hold_ref note w =
      if_allowed Verb.resume maker w
        (post_verb fresh maker Verb.resume (resume_body hold_ref note) none w)

  unfoldable pub collect_replies : AgentWorld S → Option (List Message) × AgentWorld S
  collect_replies w =
      let (wires, inbox) = poll isalnum stores agent.session_id w.inbox in
      (parse_all wires, record w { inbox = inbox })

  -- The keyword arguments of `halt`.
  module _ (store : NonceStore S) where
    -- the send behind the gate of `halt`
    unfoldable pub halt_send :
        Fresh → String → Option String → Option Grounding → AgentWorld S → Dispatch S
    halt_send fresh maker reason_ref grounding w =
        let auth = authorize_verb agent Verb.halt maker in
        let msg = outgoing agent fresh auth maker Verb.halt (halt_body reason_ref) grounding in
        send agent host isalnum stores fresh maker msg
          (record (sent auth msg) { surfaced_to_human = true }) w

    -- what follows the verification of the approval
    unfoldable pub halt_decided :
        Authorization → Option HaltDenial → AgentWorld S → Dispatch S → Dispatch S
    halt_decided auth (some reason) w act = (some (surfaced auth (halt_denied reason)), w)
    halt_decided auth none w act = act

    -- The gate with the trust store and the digest. Where the digest raises, so does `halt`.
    unfoldable pub halt_gated :
        Fresh
        → String
        → Option String
        → Option Fields
        → Option Grounding
        → Option DateTime
        → TrustStore
        → Option String
        → AgentWorld S
        → Dispatch S
    unfolding halt_decided halt_send
    halt_gated fresh maker reason_ref approval grounding now trust none w = (none, w)
    halt_gated fresh maker reason_ref approval grounding now trust (some digest) w =
        let (denial, nonces) =
          verify_halt_approval store host (halt_ports agent fresh now trust) trust agent.session_id
            approval digest maker w.nonces in
        let w' = record w { nonces = nonces } in
        halt_decided (authorize_verb agent Verb.halt maker) denial w'
          (halt_send fresh maker reason_ref grounding w')

    unfoldable pub halt_by :
        Fresh
        → String
        → Option String
        → Bool
        → Option Fields
        → Option Grounding
        → Option DateTime
        → Option TrustStore
        → AgentWorld S
        → Dispatch S
    unfolding halt_gated halt_send
    halt_by fresh maker reason_ref confirm approval grounding now (some trust) w =
        halt_gated fresh maker reason_ref approval grounding now trust
          (halt_digest host agent.session_id maker reason_ref) w
    halt_by fresh maker reason_ref confirm approval grounding now none w =
        if not confirm
        then (some (surfaced (authorize_verb agent Verb.halt maker) needs_confirmation), w)
        else halt_send fresh maker reason_ref grounding w

    unfoldable pub halt :
        Fresh
        → String
        → Option String
        → Bool
        → Option Fields
        → Option Grounding
        → Option DateTime
        → AgentWorld S
        → Dispatch S
    unfolding halt_by
    halt fresh maker reason_ref confirm approval grounding now w =
        if_allowed Verb.halt maker w
          (halt_by fresh maker reason_ref confirm approval grounding now agent.trust_store w)
