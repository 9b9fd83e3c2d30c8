-- ===== src/Channel/Once.antt =====
-- channel.py: a receipt approves one halt, and one of scope `next-action` the first of its run.
use a2a_compliance.Prelude.{refl, true, false, sym, not, ◌∙◌}
use Prim.Native.Char.{Char}
use a2a_compliance.Channel.{
  ComplianceAgent, AgentWorld, Dispatch, Fresh, authorize_verb, HaltDenial, send,
}
use a2a_compliance.Channel.Approval.{
  verify_halt_approval, approval_denial, spend, mark, next_action_scope_marker, is_next_action,
}
use a2a_compliance.Channel.Sending.{halt, halt_by, halt_gated, halt_send, halt_decided, halt_ports}
use a2a_compliance.Channel.Laws.{IsHaltApproval}
use a2a_compliance.Channel.Gated.{was_dispatched, IsGatedHalt, halt-IsGatedHalt}
use a2a_compliance.Nonces.{NonceStore, IsNonceStore}
use a2a_compliance.Prelude.{
  String, Option, Bool, List, ◌∷◌, Bool-cases, some, [], inl, ◌≡◌, inr, none,
}
use a2a_compliance.Host.{Host, DateTime}
use a2a_compliance.Json.{Fields, Value, get, str, obj}
use a2a_compliance.Grounding.{Grounding}
use a2a_compliance.Wire.Checks.{Ports}
use a2a_compliance.Authority.{Authorization, human_role, authorize}
use a2a_compliance.Wire.Trust.{TrustStore}
use a2a_compliance.Wire.Verification.{verify_human_approval}
use a2a_compliance.Verbs.{Verb}
use a2a_compliance.Envelope.{halt_digest}
use mathlib.Core.Option.{some-injective}

-- One call of `halt`, with the agent that makes it.
pub record HaltCall : Type 0 where
  pub agent : ComplianceAgent
  pub fresh : Fresh
  pub maker : String
  pub reason_ref : Option String
  pub confirm : Bool
  pub approval : Option Fields
  pub grounding : Option Grounding
  pub now : Option DateTime

module _ (host : Host) {S : Type 0} (isalnum : Char → Bool) (stores : Fields → Bool)
    (store : NonceStore S) where
  abbrev pub call : HaltCall → AgentWorld S → Dispatch S
  call c w =
      halt c.agent host isalnum stores store c.fresh c.maker c.reason_ref c.confirm c.approval
        c.grounding c.now w

  -- The world after a sequence of calls.
  unfoldable pub halt_all : List HaltCall → AgentWorld S → AgentWorld S
  halt_all [] w = w
  halt_all (c ∷ cs) w = halt_all cs (call c w).1

  -- A property of the store's state that its two methods keep.
  module _ (P : S → Type 0) (by_consume : (s : S) (r n : Value) → P s → P (store.consume s r n).1)
      (by_record : (s : S) (r n : Value) → P s → P (store.record_nonce s r n)) where
    mark-kept : (d : Fields) (s : S) → P s → P (mark store d s)
    unfolding mark
    mark-kept d s p = elim (Bool-cases (is_next_action d)) [
      | inl e ↦ rw e (by_record s (get "run_id" d) (str next_action_scope_marker) p)
      | inr e ↦ rw e p
    ]

    spend-kept : (d : Fields) (s : S) (o : Option HaltDenial) → P s → P (spend store d s o).1
    unfolding spend
    spend-kept d s (some r) p = p
    spend-kept d s none p =
        let p' = by_consume s (get "run_id" d) (get "nonce" d) p in
        elim (Bool-cases (store.consume s (get "run_id" d) (get "nonce" d)).0) [
          | inl e ↦ rw e (mark-kept d (store.consume s (get "run_id" d) (get "nonce" d)).1 p')
          | inr e ↦ rw e p'
        ]

    verify-kept :
        (ports : Ports) (trust : TrustStore) (sender digest maker : String)
        (approval : Option Fields) (s : S)
        → P s
        → P (verify_halt_approval store host ports trust sender approval digest maker s).1
    unfolding verify_halt_approval
    verify-kept ports trust sender digest maker none s p = p
    verify-kept ports trust sender digest maker (some d) s p =
        spend-kept d s
          (approval_denial (verify_human_approval host ports trust (some sender) human_role (obj d))
            d digest maker (store.seen s (get "run_id" d) (get "nonce" d))
            (store.seen s (get "run_id" d) (str next_action_scope_marker)))
          p

    module _ (agent : ComplianceAgent) (fresh : Fresh) (maker : String)
        (reason_ref : Option String) where
      decided-nonces :
          (auth : Authorization) (o : Option HaltDenial) (grounding : Option Grounding)
          (w : AgentWorld S)
          → (halt_decided agent host isalnum stores store auth o w (
              halt_send agent host isalnum stores store fresh maker reason_ref grounding
                w)).1.nonces
            ≡ w.nonces
      unfolding halt_decided halt_send send
      decided-nonces auth (some r) grounding w = refl
      decided-nonces auth none grounding w = refl

      gated-kept :
          (approval : Option Fields) (grounding : Option Grounding) (now : Option DateTime)
          (trust : TrustStore) (digest : Option String) (w : AgentWorld S)
          → P w.nonces
          → P
              (halt_gated agent host isalnum stores store fresh maker reason_ref approval grounding
                now trust digest w).1.nonces
      unfolding halt_gated
      gated-kept approval grounding now trust none w p = p
      gated-kept approval grounding now trust (some digest) w p =
          let out =
            verify_halt_approval store host (halt_ports agent fresh now trust) trust
              agent.session_id approval digest maker w.nonces in
          rw
            (decided-nonces (authorize_verb agent Verb.halt maker) out.0 grounding
              (record w { nonces = out.1 }))
            (verify-kept (halt_ports agent fresh now trust) trust agent.session_id digest maker
              approval w.nonces p)

      by-kept :
          (confirm : Bool) (approval : Option Fields) (grounding : Option Grounding)
          (now : Option DateTime) (t : Option TrustStore) (w : AgentWorld S)
          → P w.nonces
          → P
              (halt_by agent host isalnum stores store fresh maker reason_ref confirm approval
                grounding now t w).1.nonces
      unfolding halt_by
      by-kept confirm approval grounding now (some trust) w p =
          gated-kept approval grounding now trust
            (halt_digest host agent.session_id maker reason_ref) w p
      by-kept true approval grounding now none w p =
          rw (decided-nonces (authorize_verb agent Verb.halt maker) none grounding w) p
      by-kept false approval grounding now none w p = p

    halt-kept : (c : HaltCall) (w : AgentWorld S) → P w.nonces → P (call c w).1.nonces
    unfolding halt
    halt-kept c w p =
        elim (Bool-cases (authorize c.agent.role Verb.halt c.maker c.agent.roster).allowed) [
          | inl a ↦ rw a (
              by-kept c.agent c.fresh c.maker c.reason_ref c.confirm c.approval c.grounding c.now
                c.agent.trust_store w p)
          | inr a ↦ rw a p
        ]

    halt_all-kept : (cs : List HaltCall) (w : AgentWorld S) → P w.nonces → P (halt_all cs w).nonces
    unfolding halt_all
    halt_all-kept [] w p = p
    halt_all-kept (c ∷ cs) w p = halt_all-kept cs (call c w).1 (halt-kept c w p)

  module _ (law : IsNonceStore store) (c c' : HaltCall) (trust trust' : TrustStore)
      (auth : c.agent.trust_store ≡ some trust) (auth' : c'.agent.trust_store ≡ some trust')
      (d d' : Fields) (given : c.approval ≡ some d) (given' : c'.approval ≡ some d')
      (cs : List HaltCall) (w : AgentWorld S) (first : was_dispatched (call c w) ≡ true) where
    gated :
        IsGatedHalt c.agent host store trust c.fresh c.maker c.reason_ref c.approval c.now w.nonces
          (call c w).1.nonces
    gated =
        halt-IsGatedHalt c.agent host isalnum stores store trust c.fresh c.maker c.reason_ref auth
          c.confirm c.approval c.grounding c.now w first

    after_first :
        (call c w).1.nonces
        ≡ mark store d (store.consume w.nonces (get "run_id" d) (get "nonce" d)).1
    after_first =
        let g = gated in
        let same : g.receipt ≡ d = some-injective g.receipt d (sym g.given ∙ given) in
        rw same at g.after_eq

    second :
        (v : AgentWorld S)
        → was_dispatched (call c' v) ≡ true
        → (digest : String) × IsHaltApproval host
            (halt_ports c'.agent c'.fresh c'.now trust')
            trust'
            c'.agent.session_id
            digest
            c'.maker
            store
            v.nonces
            d'
    second v h =
        let g =
          halt-IsGatedHalt c'.agent host isalnum stores store trust' c'.fresh c'.maker c'.reason_ref
            auth' c'.confirm c'.approval c'.grounding c'.now v h in
        let same : g.receipt ≡ d' = some-injective g.receipt d' (sym g.given ∙ given') in
        (g.digest, rw same at g.approved_by)

    -- In authenticated mode, over any store that keeps the promises of the port: after a halt was
    -- dispatched on a receipt, and whatever other halts are called in between, no halt is dispatched
    -- on a receipt with the same run and nonce.
    pub halt-once :
        get "run_id" d' ≡ get "run_id" d
        → get "nonce" d' ≡ get "nonce" d
        → was_dispatched (call c' (halt_all cs (call c w).1)) ≡ false
    halt-once r n = elim (Bool-cases (was_dispatched (call c' (halt_all cs (call c w).1)))) [
      | inr e ↦ e
      | inl e ↦
          (let v = halt_all cs (call c w).1 in
            let (digest, a) = second v e in
            let P : S → Type 0 = λ s. law.spent s (get "run_id" d) (get "nonce" d) ≡ true in
            let spent_first : P (call c w).1.nonces = rw after_first (
              mark-kept P (λ s k m p. law.spent_kept s k m (get "run_id" d) (get "nonce" d) p)
                (λ s k m p. law.spent_kept_record s k m (get "run_id" d) (get "nonce" d) p) d
                (store.consume w.nonces (get "run_id" d) (get "nonce" d)).1
                (law.spent-consume w.nonces (get "run_id" d) (get "nonce" d))) in
            let spent_later : P v.nonces =
              halt_all-kept P (λ s k m p. law.spent_kept s k m (get "run_id" d) (get "nonce" d) p)
                (λ s k m p. law.spent_kept_record s k m (get "run_id" d) (get "nonce" d) p) cs
                (call c w).1 spent_first in
            let open_pair : not (law.spent v.nonces (get "run_id" d) (get "nonce" d)) ≡ true =
              rw (r, n, law.consume-spent v.nonces (get "run_id" d) (get "nonce" d)) at
                a.consumed in
            let bad = rw spent_later at open_pair in cc)
    ]

    -- In authenticated mode, over any store that keeps the promises of the port: after a halt was
    -- dispatched on a receipt of scope `next-action`, and whatever other halts are called in
    -- between, no halt is dispatched on another such receipt of the same run.
    pub halt-next_action :
        get "run_id" d' ≡ get "run_id" d
        → is_next_action d ≡ true
        → is_next_action d' ≡ true
        → was_dispatched (call c' (halt_all cs (call c w).1)) ≡ false
    unfolding mark
    halt-next_action r next next' =
        elim (Bool-cases (was_dispatched (call c' (halt_all cs (call c w).1)))) [
          | inr e ↦ e
          | inl e ↦
              (let v = halt_all cs (call c w).1 in
                let (digest, a) = second v e in
                let P : S → Type 0 =
                  λ s. store.seen s (get "run_id" d) (str next_action_scope_marker) ≡ true in
                let s1 = (store.consume w.nonces (get "run_id" d) (get "nonce" d)).1 in
                let marked : P (call c w).1.nonces =
                  rw (after_first, next)
                    (law.seen-record_nonce s1 (get "run_id" d) (str next_action_scope_marker)) in
                let later : P v.nonces =
                  halt_all-kept P
                    (λ s k m p.
                      law.seen_kept_consume s k m (get "run_id" d) (str next_action_scope_marker) p)
                    (λ s k m p.
                      law.seen_kept s k m (get "run_id" d) (str next_action_scope_marker) p)
                    cs (call c w).1 marked in
                let bad = rw (next', r, later) at a.once in cc)
        ]
