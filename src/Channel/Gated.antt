-- ===== src/Channel/Gated.antt =====
-- channel.py: the inversion of a halt that was dispatched in authenticated mode.
use Prim.Native.Char.{Char}
use mathlib.Core.Option.{none, some-injective}
use a2a_compliance.Channel.{
  ComplianceAgent, AgentWorld, Dispatch, Fresh, authorize_verb, HaltDenial, send, no_receipt,
}
use a2a_compliance.Channel.Approval.{
  verify_halt_approval, approval_denial, spend, mark, next_action_scope_marker,
}
use a2a_compliance.Channel.Sending.{halt, halt_by, halt_gated, halt_send, halt_decided, halt_ports}
use a2a_compliance.Channel.Laws.{IsHaltApproval, verify_halt_approval-IsHaltApproval}
use a2a_compliance.Prelude.{
  Bool, false, some, String, Option, ◌≡◌, true, Bool-cases, refl, inl, inr, ◌∙◌,
}
use a2a_compliance.Host.{Host, DateTime}
use a2a_compliance.Nonces.{NonceStore}
use a2a_compliance.Wire.Trust.{TrustStore}
use a2a_compliance.Json.{Fields, get, obj, str}
use a2a_compliance.Grounding.{Grounding}
use a2a_compliance.Authority.{Authorization, authorize, human_role}
use a2a_compliance.Verbs.{Verb}
use a2a_compliance.Envelope.{halt_digest}
use a2a_compliance.Wire.Verification.{verify_human_approval}

-- whether the call returned a result that says it sent its message
abbrev pub was_dispatched : {S : Type 0} → Dispatch S → Bool
was_dispatched (none, w) = false
was_dispatched (some r, w) = r.dispatched

-- What a dispatched halt went through in authenticated mode.
pub record IsGatedHalt (agent : ComplianceAgent) (host : Host) {S : Type 0} (store : NonceStore S)
    (trust : TrustStore) (fresh : Fresh) (maker : String) (reason_ref : Option String)
    (approval : Option Fields) (now : Option DateTime) (s after : S) : Type 0 where
  pub allowed : (authorize agent.role Verb.halt maker agent.roster).allowed ≡ true
  pub digest : String
  pub digest_eq : halt_digest host agent.session_id maker reason_ref ≡ some digest
  pub receipt : Fields
  pub given : approval ≡ some receipt
  pub approved_by :
      IsHaltApproval host
        (halt_ports agent fresh now trust)
        trust
        agent.session_id
        digest
        maker
        store
        s
        receipt
  pub after_eq :
      after ≡ mark store receipt (store.consume s (get "run_id" receipt) (get "nonce" receipt)).1

spent_after :
    {S : Type 0} (store : NonceStore S) (d : Fields) (s : S) (o : Option HaltDenial)
    → (spend store d s o).0 ≡ none
    → (spend store d s o).1 ≡ mark store d (store.consume s (get "run_id" d) (get "nonce" d)).1
unfolding spend
spent_after store d s (some r) h = cc
spent_after store d s none h =
    elim (Bool-cases (store.consume s (get "run_id" d) (get "nonce" d)).0) [
      | inl e ↦ rw e refl
      | inr e ↦ (let h' = rw (e, spend) at h in cc)
    ]

module _ (agent : ComplianceAgent) (host : Host) {S : Type 0} (isalnum : Char → Bool)
    (stores : Fields → Bool) (store : NonceStore S) (trust : TrustStore) (fresh : Fresh)
    (maker : String) (reason_ref : Option String) where
  halt_send-nonces :
      (grounding : Option Grounding) (w : AgentWorld S)
      → (halt_send agent host isalnum stores store fresh maker reason_ref grounding w).1.nonces
        ≡ w.nonces
  unfolding halt_send send
  halt_send-nonces grounding w = refl

  decided :
      (auth : Authorization) (o : Option HaltDenial) (grounding : Option Grounding)
      (w : AgentWorld S)
      → let out : Dispatch S =
          halt_decided agent host isalnum stores store auth o w
            (halt_send agent host isalnum stores store fresh maker reason_ref grounding w) in
        was_dispatched out ≡ true → (o ≡ none) × (out.1.nonces ≡ w.nonces)
  unfolding halt_decided
  decided auth (some r) grounding w h = cc
  decided auth none grounding w h = (refl, halt_send-nonces grounding w)

  gated-dispatched :
      (approval : Option Fields) (grounding : Option Grounding) (now : Option DateTime)
      (w : AgentWorld S)
      → (authorize agent.role Verb.halt maker agent.roster).allowed ≡ true
      → (digest : Option String) → halt_digest host agent.session_id maker reason_ref ≡ digest
      → let out : Dispatch S =
          halt_gated agent host isalnum stores store fresh maker reason_ref approval grounding now
            trust digest w in
        was_dispatched out ≡ true
        → IsGatedHalt agent host store trust fresh maker reason_ref approval now w.nonces
            out.1.nonces
  unfolding halt_gated verify_halt_approval
  gated-dispatched approval grounding now w a none e h = cc
  gated-dispatched none grounding now w a (some digest) e h =
      let (impossible, n) =
        decided (authorize_verb agent Verb.halt maker) (some no_receipt) grounding w h in
      cc
  gated-dispatched (some d) grounding now w a (some digest) e h =
      let ports = halt_ports agent fresh now trust in
      let o =
        approval_denial
          (verify_human_approval host ports trust (some agent.session_id) human_role (obj d)) d
          digest maker (store.seen w.nonces (get "run_id" d) (get "nonce" d))
          (store.seen w.nonces (get "run_id" d) (str next_action_scope_marker)) in
      let out = spend store d w.nonces o in
      let (quiet, n) =
        decided (authorize_verb agent Verb.halt maker) out.0 grounding (record w { nonces = out.1 })
          h in
      record {
        allowed = a;
        digest = digest;
        digest_eq = e;
        receipt = d;
        given = refl;
        approved_by =
            verify_halt_approval-IsHaltApproval host ports trust agent.session_id digest maker store
              w.nonces d quiet;
        after_eq = n ∙ spent_after store d w.nonces o quiet;
      }

  by_trust :
      (confirm : Bool) (approval : Option Fields) (grounding : Option Grounding)
      (now : Option DateTime) (w : AgentWorld S)
      → (authorize agent.role Verb.halt maker agent.roster).allowed ≡ true
      → (t : Option TrustStore) → t ≡ some trust
      → let out : Dispatch S =
          halt_by agent host isalnum stores store fresh maker reason_ref confirm approval grounding
            now t w in
        was_dispatched out ≡ true
        → IsGatedHalt agent host store trust fresh maker reason_ref approval now w.nonces
            out.1.nonces
  unfolding halt_by
  by_trust confirm approval grounding now w a none e h = cc
  by_trust confirm approval grounding now w a (some t) e h =
      let same : t ≡ trust = some-injective t trust e in
      rw same (
        gated-dispatched approval grounding now w a
          (halt_digest host agent.session_id maker reason_ref) refl (rw same at h))

  -- In authenticated mode, a halt that is dispatched was given a receipt that `verify_human_approval`
  -- accepts for a human identity which is neither the sender nor the maker, that is bound to the
  -- digest of this very halt, has a known scope and a run and nonce of its own which the store has
  -- not seen and now consumes, and, if its scope is the next action, is the first such receipt of
  -- its run; the sender's role may halt the maker.
  pub halt-IsGatedHalt :
      agent.trust_store ≡ some trust
      → (confirm : Bool) (approval : Option Fields) (grounding : Option Grounding)
        (now : Option DateTime) (w : AgentWorld S)
      → let out : Dispatch S =
          halt agent host isalnum stores store fresh maker reason_ref confirm approval grounding now
            w in
        was_dispatched out ≡ true
        → IsGatedHalt agent host store trust fresh maker reason_ref approval now w.nonces
            out.1.nonces
  unfolding halt
  halt-IsGatedHalt e confirm approval grounding now w h =
      elim (Bool-cases (authorize agent.role Verb.halt maker agent.roster).allowed) [
        | inr a ↦ (let h' = rw a at h in cc)
        | inl a ↦ rw a (by_trust confirm approval grounding now w a agent.trust_store e (rw a at h))
      ]
