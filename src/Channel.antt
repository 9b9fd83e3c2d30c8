-- ===== src/Channel.antt =====
-- channel.py: the sending side of a compliance agent.
pub mod Approval
pub mod Sending
pub mod Grounded
pub mod Laws
pub mod Gated
pub mod Once
pub mod Delivery
pub mod Tests
use a2a_compliance.Inbox.{put, FileInbox}
use Prim.Native.Char.{Char}
use a2a_compliance.Prelude.{
  String, List, Bool, Option, ℕ, false, true, none, some, if◌then◌else◌, is_none,
}
use a2a_compliance.Authority.{AuthorizationReason, Authorization, Roster, authorize, to_block}
use a2a_compliance.Envelope.{
  Stamp, Party, Message, to_wire, new_message, stamp_and_sign, default_ttl_seconds,
}
use a2a_compliance.Verbs.{Verb}
use a2a_compliance.Host.{Host}
use a2a_compliance.Wire.Checks.{VerificationError}
use a2a_compliance.Governance.{RulingReason, GovernanceBlock, SteerRuling}
use a2a_compliance.Json.{str, Fields, Value, null}
use a2a_compliance.Grounding.{Grounding, GroundingResult}
use a2a_compliance.Wire.Trust.{TrustStore, RevocationStore}
use a2a_compliance.Wire.Admission.Permit.{Issuer}

-- The fields that the agent sets once. `maker_blocks` is `(self.maker_blocks or {}).get`.
pub record ComplianceAgent : Type 0 where
  pub session_id : String
  pub role : String
  pub roster : Option Roster
  pub maker_blocks : String → Option GovernanceBlock
  pub trust_store : Option TrustStore
  pub revocation_store : Option RevocationStore
  pub signer : Option Issuer

-- Why `_verify_halt_approval` denies.
pub data HaltDenial : Type 0 where
  no_receipt : HaltDenial
  verification_failed : List VerificationError → HaltDenial
  other_digest : HaltDenial
  approver_is_maker : HaltDenial
  unknown_scope : Value → HaltDenial
  no_run_or_nonce : HaltDenial
  already_used : HaltDenial
  next_action_used : HaltDenial

pub data Denial : Type 0 where
  denied_by_authority : AuthorizationReason → Denial
  denied_by_ruling : RulingReason → Denial
  needs_confirmation : Denial
  halt_denied : HaltDenial → Denial
  routed_to_human : String → Denial

pub record DispatchResult : Type 0 where
  pub dispatched : Bool
  pub authorization : Authorization
  pub message : Option Message
  pub ruling : Option SteerRuling
  pub surfaced_to_human : Bool
  pub denied_reason : Option Denial
  pub grounding_result : Option GroundingResult

-- What the methods change: the mailboxes and the agent's nonces.
pub record AgentWorld (S : Type 0) : Type 0 where
  pub inbox : FileInbox
  pub nonces : S

-- What `uuid` and the clock give to one send.
pub record Fresh : Type 0 where
  pub stamp : Stamp
  pub nonce : String
  pub clock : ℕ

-- A call that returns, or raises in `put`.
abbrev pub Dispatch : Type 0 → Type 0
Dispatch S = Option DispatchResult × AgentWorld S

abbrev pub denied : Authorization → Denial → DispatchResult
denied auth reason = record {
  dispatched = false;
  authorization = auth;
  message = none;
  ruling = none;
  surfaced_to_human = false;
  denied_reason = some reason;
  grounding_result = none;
}

abbrev pub surfaced : Authorization → Denial → DispatchResult
surfaced auth reason = record (denied auth reason) { surfaced_to_human = true }

abbrev pub sent : Authorization → Message → DispatchResult
sent auth msg = record {
  dispatched = true;
  authorization = auth;
  message = some msg;
  ruling = none;
  surfaced_to_human = false;
  denied_reason = none;
  grounding_result = none;
}

module _ (agent : ComplianceAgent) where
  abbrev pub me : Party
  me = record { actor = str agent.session_id; role = str agent.role }

  abbrev pub maker_party : String → Party
  maker_party maker = record { actor = str maker; role = str "maker" }

  -- `_authorize`
  abbrev pub authorize_verb : Verb → String → Authorization
  authorize_verb verb maker = authorize agent.role verb maker agent.roster

  -- the message of each verb
  unfoldable pub outgoing :
      Fresh → Authorization → String → Verb → Fields → Option Grounding → Message
  outgoing fresh auth maker verb body grounding =
      new_message fresh.stamp me (maker_party maker) verb body (to_block auth) null grounding

  -- The dict that `_send` puts. Only an agent with a trust store and a signer signs.
  wire_of : Host → Fresh → Fields → Option TrustStore → Option Issuer → Fields
  wire_of host fresh wire (some trust) (some signer) =
      stamp_and_sign host signer.sign wire signer.key_id fresh.nonce fresh.clock default_ttl_seconds
  wire_of host fresh wire _ _ = wire

  unfoldable pub outgoing_wire : Host → Fresh → Message → Fields
  unfolding wire_of
  outgoing_wire host fresh msg = wire_of host fresh (to_wire msg) agent.trust_store agent.signer

  module _ (host : Host) {S : Type 0} (isalnum : Char → Bool) (stores : Fields → Bool) where
    -- `_send`, and the result around it; `maker` is `msg.to.actor`
    unfoldable pub send : Fresh → String → Message → DispatchResult → AgentWorld S → Dispatch S
    send fresh maker msg result w =
        let (seq, inbox) = put isalnum stores maker (outgoing_wire host fresh msg) w.inbox in
        (if is_none seq then none else some result, record w { inbox = inbox })
