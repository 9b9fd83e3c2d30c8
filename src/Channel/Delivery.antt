-- ===== src/Channel/Delivery.antt =====
-- channel.py, envelope.py and participant.py together: a halt that the agent signs stops the maker
-- whose turn it is to read it.
use Prim.Native.Char.{Char}
use a2a_compliance.Channel.{ComplianceAgent, Fresh, outgoing, outgoing_wire, wire_of}
use a2a_compliance.Envelope.{
  Message, stamp_and_sign, stamped, to_wire, default_ttl_seconds, remove, base_wire, new_message,
  Stamp,
}
use a2a_compliance.Envelope.Parser.{from_wire}
use a2a_compliance.Envelope.Laws.{from_wire-to_wire}
use a2a_compliance.Participant.{
  Maker, envelope_rejection, should_continue, envelope_object_type, authorize_sender,
}
use a2a_compliance.Participant.Checkpoint.{World, handle}
use a2a_compliance.Participant.Stopping.{handle-halts}
use a2a_compliance.Verbs.{Verb}
use a2a_compliance.Host.{Host}
use a2a_compliance.Wire.Admission.Permit.{Issuer}
use a2a_compliance.Wire.Trust.{
  TrustStore, TrustBinding, authorizes_type, authorizes_role, is_identity,
}
use a2a_compliance.Authority.{Authorization, authorize}
use a2a_compliance.Prelude.{
  String, ◌≡◌, some, Option, ℕ, ◌+◌, true, ◌*◌, refl, ◌==◌, false, [], leb, none, Bool, ap, ◌∙◌,
}
use a2a_compliance.Json.{Fields, str}
use a2a_compliance.Grounding.{Grounding}
use a2a_compliance.Wire.Signing.{verify_signature}
use a2a_compliance.Wire.Checks.{parse_datetime}
use a2a_compliance.Nonces.{NonceStore}
use a2a_compliance.Participant.Laws.{IsAuthentic, IsAuthentic-passes}

-- A maker that trusts the agent's key, and a signer whose signatures the key verifies.
pub record IsTrusted (host : Host) (agent : ComplianceAgent) (signer : Issuer) (maker : Maker)
    (trust : TrustStore) (b : TrustBinding) : Type 0 where
  pub trusts : maker.trust_store ≡ some trust
  pub resolved : trust (str signer.key_id) ≡ some b
  pub for_envelopes : authorizes_type b envelope_object_type ≡ true
  pub for_role : authorizes_role b (str agent.role) ≡ true
  pub by_sender : is_identity b (str agent.session_id) ≡ true
  pub installed : maker.cryptography ≡ true
  pub has_key : (signer.key_id == "") ≡ false
  pub may_halt : (authorize agent.role Verb.halt maker.session_id maker.roster).allowed ≡ true

module _ (host : Host) (agent : ComplianceAgent) (signer : Issuer) (fresh : Fresh)
    (auth : Authorization) (maker_id : String) (body : Fields) (grounding : Option Grounding) where
  abbrev pub expiry : ℕ
  expiry = fresh.clock + default_ttl_seconds * 1000000

  abbrev pub message : Message
  unfolding outgoing
  message = outgoing agent fresh auth maker_id Verb.halt body grounding

  abbrev pub given_to_sign : Fields
  given_to_sign =
      stamped host (to_wire message) signer.key_id fresh.nonce fresh.clock default_ttl_seconds

  abbrev signed_message : Message
  signed_message = record message {
    nonce = str fresh.nonce;
    expires_at = str (host.isoformat expiry);
    key_id = str signer.key_id;
    signature = str (signer.sign given_to_sign);
  }

  abbrev pub signed_wire : Fields
  signed_wire =
      stamp_and_sign host signer.sign (to_wire message) signer.key_id fresh.nonce fresh.clock
        default_ttl_seconds

  signed_wire-to_wire : signed_wire ≡ to_wire signed_message
  unfolding stamp_and_sign stamped remove to_wire base_wire outgoing new_message
  signed_wire-to_wire = refl

  module _ (maker : Maker) (trust : TrustStore) (b : TrustBinding)
      (t : IsTrusted host agent signer maker trust b) (to_maker : maker_id ≡ maker.session_id)
      (in_time : leb expiry maker.clock ≡ false) (has_nonce : (fresh.nonce == "") ≡ false)
      (signs : verify_signature host signed_wire b.public_key ≡ [])
      (signs_some : (signer.sign given_to_sign == "") ≡ false)
      (reads_back : parse_datetime host (str (host.isoformat expiry)) ≡ some expiry) where
    signed_wire-IsAuthentic : IsAuthentic host maker trust signed_wire signed_message false
    unfolding stamp_and_sign stamped remove to_wire base_wire outgoing new_message authorize_sender
    signed_wire-IsAuthentic = record {
      binding = b;
      resolved = t.resolved;
      for_envelopes = t.for_envelopes;
      for_role = t.for_role;
      by_sender = t.by_sender;
      verified = signs;
      expires_at = expiry;
      expiry = reads_back;
      in_time = in_time;
      has_nonce = rw has_nonce refl;
      fresh = refl;
      authorized = rw t.may_halt refl;
    }

    accepted : envelope_rejection host maker trust signed_wire signed_message false ≡ none
    unfolding stamp_and_sign stamped remove to_wire base_wire outgoing new_message
    accepted =
        IsAuthentic-passes host maker signed_wire signed_message false trust (rw (signs_some) refl)
          (rw t.has_key refl) t.installed signed_wire-IsAuthentic

    parsed : from_wire signed_wire ≡ some signed_message
    parsed = rw signed_wire-to_wire (from_wire-to_wire signed_message)

    module _ {S : Type 0} (store : NonceStore S) (isalnum : Char → Bool) (stores : Fields → Bool)
        (agent_trust : TrustStore) (authenticated_mode : agent.trust_store ≡ some agent_trust)
        (signing : agent.signer ≡ some signer) where
      outgoing_wire-signed : outgoing_wire agent host fresh message ≡ signed_wire
      unfolding outgoing_wire wire_of
      outgoing_wire-signed =
          ap (λ (o : Option TrustStore). wire_of agent host fresh (to_wire message) o agent.signer)
            authenticated_mode
          ∙ ap
              (λ (o : Option Issuer).
                wire_of agent host fresh (to_wire message) (some agent_trust) o)
              signing

      -- The envelope of a halt that an agent in authenticated mode signs stops the maker that
      -- handles it. The conditions: the envelope is addressed to the maker; the maker has
      -- cryptography installed and resolves the key's id, which is not empty, to a binding for
      -- control envelopes, for the agent's role and for the agent's identity; the signature is not
      -- empty and verifies under the binding's public key; the expiry reads back as it was written
      -- and is later than the maker's clock; the nonce is not empty and the maker's store has not
      -- seen it; and the maker's roster lets the agent's role halt it.
      pub handle-outgoing_wire :
          (stamp : Stamp) (w : World S)
          → store.seen w.nonces (str agent.session_id) (str fresh.nonce) ≡ false
          → should_continue
              (handle host maker store isalnum stores stamp
                (outgoing_wire agent host fresh message)
                w).world.state
            ≡ false
      unfolding should_continue stamp_and_sign stamped remove to_wire base_wire outgoing new_message
      handle-outgoing_wire stamp w unseen = rw outgoing_wire-signed (
          rw
            (handle-halts host maker store isalnum stores trust t.trusts stamp signed_wire
              signed_message w parsed refl (rw unseen accepted))
            refl)
