-- ===== src/Wire/Executor/Execute/Once.antt =====
-- When an effect happens, and that it happens once for each permit.
use a2a_compliance.Prelude.{
  ◌∷◌, [], refl, Bool-cases, inl, inr, false, List, arith, is_empty, is_empty-eq-true, sym, ap,
}
use a2a_compliance.Host.{Host}
use a2a_compliance.Nonces.{NonceStore, IsNonceStore}
use a2a_compliance.Json.{Value, Fields, get, obj, null}
use a2a_compliance.Prelude.{String, ◌≢◌, [], ◌≡◌, true}
use a2a_compliance.Wire.Executor.Execute.{
  consume_step, Match, match_digest, match_fails, consume_and_execute, permit_match,
}
use a2a_compliance.Wire.Executor.{ExecutionArguments}
use a2a_compliance.Wire.Executor.Execute.Laws.{IsAuthorised, permit_match-IsAuthorised}

obj-injective : (d e : Fields) → obj d ≡ obj e → d ≡ e
obj-injective d e h = cc

module _ {S : Type 0} (host : Host) (store : NonceStore S) (str_of : Value → String) where
  consumed :
      (args : ExecutionArguments) (d : Fields) (s : S) (m : Match)
      → (consume_step host store str_of args d s m).2 ≢ []
      → ((digest : String) × (m ≡ match_digest digest))
        × ((store.consume s (get "run_id" d) (get "nonce" d)).0 ≡ true)
        × ((consume_step host store str_of args d s m).1
            ≡ (store.consume s (get "run_id" d) (get "nonce" d)).1)
        × ((consume_step host store str_of args d s m).2 ≡ (args.tool, args.arguments) ∷ [])
  unfolding consume_step
  consumed args d s (match_fails reasons) h = absurd (h refl)
  consumed args d s (match_digest digest) h =
      elim (Bool-cases (store.consume s (get "run_id" d) (get "nonce" d)).0) [
        | inl fresh ↦ ((digest, refl), fresh, rw fresh refl, rw fresh refl)
        | inr spent ↦ absurd (h (rw spent refl))
      ]

  -- A step keeps what is spent.
  spent_step :
      (laws : IsNonceStore store) (args : ExecutionArguments) (d : Fields) (s : S) (r n : Value)
      (m : Match)
      → laws.spent s r n ≡ true
      → laws.spent (consume_step host store str_of args d s m).1 r n ≡ true
  unfolding consume_step
  spent_step laws args d s r n (match_fails reasons) h = h
  spent_step laws args d s r n (match_digest digest) h =
      let kept = laws.spent_kept s (get "run_id" d) (get "nonce" d) r n h in
      elim (Bool-cases (store.consume s (get "run_id" d) (get "nonce" d)).0) [
        | inl fresh ↦ rw fresh kept
        | inr spent ↦ rw spent kept
      ]

  -- The store after a call keeps what is spent.
  spent_after :
      (laws : IsNonceStore store) (args : ExecutionArguments) (v : Value) (s : S) (r n : Value)
      → laws.spent s r n ≡ true
      → laws.spent (consume_and_execute host store str_of args v s).1 r n ≡ true
  unfolding consume_and_execute
  spent_after laws args (obj d) s r n h = spent_step laws args d s r n (permit_match host args d) h
  spent_after laws args null s r n h = h
  spent_after laws args _ s r n h = h

  -- What an effect means: an authorised call, whose nonce was not spent and is spent from then on.
  pub record IsExecuted (laws : IsNonceStore store) (args : ExecutionArguments) (v : Value) (s : S)
      : Type 0 where
    pub permit : Fields
    pub is_permit : v ≡ obj permit
    pub authorised : IsAuthorised host args permit
    pub fresh : laws.spent s (get "run_id" permit) (get "nonce" permit) ≡ false
    pub spent :
        laws.spent
          (consume_and_execute host store str_of args v s).1
          (get "run_id" permit)
          (get "nonce" permit)
        ≡ true
    pub once : (consume_and_execute host store str_of args v s).2 ≡ (args.tool, args.arguments) ∷ []

  consume_step-IsExecuted :
      (laws : IsNonceStore store) (args : ExecutionArguments) (d : Fields) (s : S)
      → (consume_step host store str_of args d s (permit_match host args d)).2 ≢ []
      → IsExecuted laws args (obj d) s
  unfolding consume_and_execute
  consume_step-IsExecuted laws args d s h =
      let ((digest, matched), answer, after, effects) =
        consumed args d s (permit_match host args d) h in
      let answer' = laws.consume-spent s (get "run_id" d) (get "nonce" d) in
      record {
        permit = d;
        is_permit = refl;
        authorised = permit_match-IsAuthorised host args d digest matched;
        fresh = ground arith;
        spent = rw after (laws.spent-consume s (get "run_id" d) (get "nonce" d));
        once = effects;
      }

  -- An effect happens only in a call whose permit verifies at that moment, is of an executable
  -- grade, binds the tool and the digest of the arguments of the call, and, if it is constrained to
  -- a sender, names the caller, who proves possession of the confirmed key; the effect is the one
  -- call of the tool, and its nonce was not spent before and is spent after.
  pub consume_and_execute-IsExecuted :
      (laws : IsNonceStore store) (args : ExecutionArguments) (v : Value) (s : S)
      → (consume_and_execute host store str_of args v s).2 ≢ []
      → IsExecuted laws args v s
  unfolding consume_and_execute
  consume_and_execute-IsExecuted laws args (obj d) s h = consume_step-IsExecuted laws args d s h
  consume_and_execute-IsExecuted laws args null s h = absurd (h refl)
  consume_and_execute-IsExecuted laws args _ s h = absurd (h refl)

  -- The store after a sequence of calls.
  unfoldable pub execute_all : List (ExecutionArguments × Value) → S → S
  execute_all [] s = s
  execute_all ((args, v) ∷ calls) s =
      execute_all calls (consume_and_execute host store str_of args v s).1

  spent_after_all :
      (laws : IsNonceStore store) (calls : List (ExecutionArguments × Value)) (s : S) (r n : Value)
      → laws.spent s r n ≡ true
      → laws.spent (execute_all calls s) r n ≡ true
  unfolding execute_all
  spent_after_all laws [] s r n h = h
  spent_after_all laws ((args, v) ∷ calls) s r n h =
      spent_after_all laws calls _ r n (spent_after laws args v s r n h)

  fresh_of :
      (laws : IsNonceStore store) (args : ExecutionArguments) (d : Fields) (s : S)
      → (consume_and_execute host store str_of args (obj d) s).2 ≢ []
      → laws.spent s (get "run_id" d) (get "nonce" d) ≡ false
  fresh_of laws args d s h =
      let e = consume_and_execute-IsExecuted laws args (obj d) s h in
      let same : e.permit ≡ d = sym (obj-injective d e.permit e.is_permit) in rw same at e.fresh

  spent_of :
      (laws : IsNonceStore store) (args : ExecutionArguments) (d : Fields) (s : S)
      → (consume_and_execute host store str_of args (obj d) s).2 ≢ []
      → laws.spent
          (consume_and_execute host store str_of args (obj d) s).1
          (get "run_id" d)
          (get "nonce" d)
        ≡ true
  spent_of laws args d s h =
      let e = consume_and_execute-IsExecuted laws args (obj d) s h in
      let same : e.permit ≡ d = sym (obj-injective d e.permit e.is_permit) in rw same at e.spent

  -- At most one effect: once a call has had an effect, then after any further calls, none with a
  -- permit of the same `run_id` and `nonce` has one.
  pub consume_and_execute-once :
      (laws : IsNonceStore store) (args args' : ExecutionArguments) (d d' : Fields)
      (calls : List (ExecutionArguments × Value)) (s : S)
      → (consume_and_execute host store str_of args (obj d) s).2 ≢ []
      → get "run_id" d' ≡ get "run_id" d
      → get "nonce" d' ≡ get "nonce" d
      → (consume_and_execute host store str_of args'
          (obj d')
          (execute_all calls (consume_and_execute host store str_of args (obj d) s).1)).2
        ≡ []
  consume_and_execute-once laws args args' d d' calls s h r n =
      let s₁ = (consume_and_execute host store str_of args (obj d) s).1 in
      let s₂ = execute_all calls s₁ in
      let kept =
        spent_after_all laws calls s₁ (get "run_id" d) (get "nonce" d) (spent_of laws args d s h) in
      elim (Bool-cases (is_empty (consume_and_execute host store str_of args' (obj d') s₂).2)) [
        | inl none_happens ↦ is_empty-eq-true _ none_happens
        | inr happens ↦ absurd (
            let fresh' =
              fresh_of laws args' d' s₂ (λ e. let f = ap is_empty e in cc (happens, f)) in
            let fresh : laws.spent s₂ (get "run_id" d) (get "nonce" d) ≡ false =
              rw n at (rw r at fresh') in
            cc (kept, fresh))
      ]
