-- ===== src/Channel/Tests.antt =====
-- Instances of the theorems on the compliance agent.
use a2a_compliance.Inbox
use a2a_compliance.Json.{put, Fields, str}
use a2a_compliance.Verbs.{name, value}
use a2a_compliance.Nonces.Memory.{
  seen, has_pair, consume, MemoryNonces, memory_store, memory_store-IsNonceStore,
}
use a2a_compliance.Inbox.{
  pending, claimed, claim, publish, sort, insert, matching, mailbox, put_box, next_seq, first_free,
}
use a2a_compliance.Wire.Canonical.{subject, subject_digest, digest_hex, canon}
use a2a_compliance.Authority.{oversees, authorize, Authorization, may_steer_reserved, to_block}
use a2a_compliance.Channel.{ComplianceAgent, AgentWorld, Fresh, send, outgoing_wire, outgoing}
use a2a_compliance.Channel.Once.{HaltCall, call, halt_all, halt-once, halt-next_action}
use a2a_compliance.Channel.Gated.{was_dispatched, IsGatedHalt, halt-IsGatedHalt}
use a2a_compliance.Channel.Delivery.{IsTrusted, handle-outgoing_wire, message, signed_wire}
use a2a_compliance.Channel.Sending.{halt, halt_by, halt_gated, halt_decided, halt_send}
use a2a_compliance.Prelude.{none, some, false, Bool, ◌≡◌, refl, ◌∷◌, [], true}
use a2a_compliance.Participant.Tests.{test_stamp, no_mail, no_nonces, is_plain, accepts, test_maker}
use a2a_compliance.Wire.Fixtures.{test_trust, test_approval, test_host, test_issuer, test_binding}
use a2a_compliance.Channel.Approval.{
  verify_halt_approval, approval_denial, receipt_denial, spend, mark,
}
use a2a_compliance.Wire.Verification.{verify_human_approval, verify}
use a2a_compliance.Wire.Checks.{
  parse_datetime, replace_z, stage_receipt_role_findings, trust_findings,
  human_approval_wire_findings, revocation_findings, approver_findings,
}
use a2a_compliance.Wire.Trust.{authorizes_type, authorizes_role, TrustBinding, TrustStore}
use a2a_compliance.Wire.Signing.{verify_signature, pae_bytes}
use a2a_compliance.Envelope.{
  new_message, to_wire, base_wire, halt_digest, stamp_and_sign, stamped, remove, halt_body,
  party_wire, authority_wire, grounding_wire, enforcement_wire, plane_wires,
}
use a2a_compliance.Host.{Host, aware}
use a2a_compliance.Participant.{Maker, should_continue, initial}
use a2a_compliance.Participant.Checkpoint.{handle}

abbrev ops : ComplianceAgent
ops = record {
  session_id = "ops";
  role = "policy-compliance";
  roster = none;
  maker_blocks = λ maker. none;
  trust_store = some test_trust;
  revocation_store = none;
  signer = some test_issuer;
}

abbrev fresh : Fresh
fresh = record { stamp = test_stamp; nonce = "n1"; clock = 50 }

abbrev start : AgentWorld MemoryNonces
start = record { inbox = no_mail; nonces = no_nonces }

abbrev halt_call : Fields → HaltCall
halt_call receipt = record {
  agent = ops;
  fresh = fresh;
  maker = "bot";
  reason_ref = none;
  confirm = false;
  approval = some receipt;
  grounding = none;
  now = none;
}

abbrev next_action_receipt : Fields
next_action_receipt = put "scope" (str "next-action") test_approval

abbrev sent_by : Fields → Bool
sent_by receipt =
    was_dispatched (call test_host is_plain accepts memory_store (halt_call receipt) start)

session_sent : sent_by test_approval ≡ true
unfolding halt halt_by halt_gated halt_decided halt_send verify_halt_approval approval_denial
    receipt_denial spend mark authorize oversees verify_human_approval verify subject_digest
    digest_hex canon subject parse_datetime replace_z stage_receipt_role_findings trust_findings
    human_approval_wire_findings revocation_findings authorizes_type authorizes_role
    verify_signature approver_findings pae_bytes seen has_pair consume send outgoing_wire outgoing
    new_message to_wire base_wire put_box next_seq first_free claimed halt_digest Inbox.put
session_sent = refl

next_action_sent : sent_by next_action_receipt ≡ true
unfolding halt halt_by halt_gated halt_decided halt_send verify_halt_approval approval_denial
    receipt_denial spend mark authorize oversees verify_human_approval verify subject_digest
    digest_hex canon subject parse_datetime replace_z stage_receipt_role_findings trust_findings
    human_approval_wire_findings revocation_findings authorizes_type authorizes_role
    verify_signature approver_findings pae_bytes seen has_pair consume send outgoing_wire outgoing
    new_message to_wire base_wire put_box next_seq first_free claimed halt_digest Inbox.put
next_action_sent = refl

halt-IsGatedHalt_example :
    IsGatedHalt ops test_host memory_store test_trust fresh "bot" none
      (some test_approval)
      none
      no_nonces
      (call test_host is_plain accepts memory_store (halt_call test_approval) start).1.nonces
halt-IsGatedHalt_example =
    halt-IsGatedHalt ops test_host is_plain accepts memory_store test_trust fresh "bot" none refl
      false (some test_approval) none none start session_sent

halt-once_example :
    was_dispatched (
      call test_host is_plain accepts memory_store (halt_call test_approval) (
        halt_all test_host is_plain accepts memory_store
          (halt_call next_action_receipt ∷ [])
          (call test_host is_plain accepts memory_store (halt_call test_approval) start).1))
    ≡ false
halt-once_example =
    halt-once test_host is_plain accepts memory_store memory_store-IsNonceStore
      (halt_call test_approval) (halt_call test_approval) test_trust test_trust refl refl
      test_approval test_approval refl refl (halt_call next_action_receipt ∷ []) start session_sent
      refl refl

-- Another receipt for the same run.
abbrev other_receipt : Fields
other_receipt = put "nonce" (str "again") next_action_receipt

halt-next_action_example :
    was_dispatched (
      call test_host is_plain accepts memory_store (halt_call other_receipt) (
        halt_all test_host is_plain accepts memory_store []
          (call test_host is_plain accepts memory_store (halt_call next_action_receipt) start).1))
    ≡ false
halt-next_action_example =
    halt-next_action test_host is_plain accepts memory_store memory_store-IsNonceStore
      (halt_call next_action_receipt) (halt_call other_receipt) test_trust test_trust refl refl
      next_action_receipt other_receipt refl refl [] start next_action_sent refl refl refl

-- A host that reads every text as the instant five minutes after 50.
abbrev later_host : Host
later_host = record test_host { fromisoformat = λ s. some (aware 300000050) }

abbrev ops_binding : TrustBinding
ops_binding = record test_binding { roles = "*" ∷ []; identity = some "ops" }

abbrev ops_trust : TrustStore
ops_trust key_id = some ops_binding

abbrev bot : Maker
bot = record test_maker { trust_store = some ops_trust }

abbrev ops_auth : Authorization
ops_auth = record {
  allowed = true;
  reserved = true;
  reason = may_steer_reserved;
  basis = "role";
  role = some "policy-compliance";
  oversees = some "bot";
}

ops-IsTrusted : IsTrusted later_host ops test_issuer bot ops_trust ops_binding
unfolding authorizes_type authorizes_role authorize oversees
ops-IsTrusted = record {
  trusts = refl;
  resolved = refl;
  for_envelopes = refl;
  for_role = refl;
  by_sender = refl;
  installed = refl;
  has_key = refl;
  may_halt = refl;
}

signs :
    verify_signature later_host
      (signed_wire later_host ops test_issuer fresh ops_auth "bot" (halt_body none) none)
      []
    ≡ []
unfolding verify_signature pae_bytes canon subject stamp_and_sign stamped remove to_wire base_wire
    outgoing new_message value name party_wire authority_wire grounding_wire enforcement_wire
    plane_wires halt_body to_block
signs = refl

reads_back : parse_datetime later_host (str "later") ≡ some 300000050
unfolding parse_datetime replace_z
reads_back = refl

handle-outgoing_wire_example :
    should_continue
      (handle later_host bot memory_store is_plain accepts test_stamp
        (outgoing_wire ops later_host fresh
          (message later_host ops test_issuer fresh ops_auth "bot" (halt_body none) none))
        (record { state = initial; nonces = no_nonces; inbox = no_mail })).world.state
    ≡ false
unfolding seen has_pair
handle-outgoing_wire_example =
    handle-outgoing_wire later_host ops test_issuer fresh ops_auth "bot" (halt_body none) none bot
      ops_trust ops_binding ops-IsTrusted refl refl refl signs refl reads_back memory_store is_plain
      accepts test_trust refl refl test_stamp
      (record { state = initial; nonces = no_nonces; inbox = no_mail }) refl
