-- ===== src/Wire/Chain/Laws.antt =====
-- wire/chain.py and wire/audit_chain.py: what an accepted chain pins.
use a2a_compliance.Wire.Chain.{
  verify_chain, link_all, link_errors, digest_value, rejection_of, verify_by, dict_errors,
}
use a2a_compliance.Wire.Verification.Laws.{IsAccepted, verify-IsAccepted}
use a2a_compliance.Json.Equality.{same, same_iff}
use a2a_compliance.Json.{Value, Fields, obj, is_null, get, opt_str}
use a2a_compliance.Prelude.{
  Bool, ℕ, ◌≡◌, if◌then◌else◌, List, true, [], String, ◌∷◌, suc, Option, false, Bool-cases, refl,
  none, ◌++◌, append-eq-nil, ◌≢◌, inl, inr, zero,
}
use a2a_compliance.Host.{Host}
use a2a_compliance.Wire.Checks.{Ports, VerificationError}
use a2a_compliance.Wire.Verification.{verify}

pub same-eq : (a b : Value) → same a b ≡ true → a ≡ b
same-eq a b h = (same_iff a b).0 h

pub if-nil {ℓ} : {A : Type ℓ} (b : Bool) (x : A) → (if b then [] else x ∷ []) ≡ [] → b ≡ true
if-nil true x h = refl
if-nil false x h = cc

link_errors-nil :
    (i : ℕ) (claimed prior : Value) → link_errors i claimed prior ≡ [] → claimed ≡ prior
unfolding link_errors
link_errors-nil zero claimed prior h = same-eq claimed prior (if-nil (same claimed prior) _ h)
link_errors-nil (suc i) claimed prior h = elim (Bool-cases (is_null claimed)) [
  | inl e ↦ (let h' = rw e at h in cc)
  | inr e ↦ same-eq claimed prior (if-nil (same claimed prior) _ (rw e at h))
]

rejection_of-nil :
    (i : ℕ) (errors : List VerificationError) → rejection_of i errors ≡ [] → errors ≡ []
unfolding rejection_of
rejection_of-nil i [] h = refl
rejection_of-nil i (e ∷ es) h = cc

module _ (host : Host) (ports : Ports) (obj_type : String) where
  -- Every object is an accepted dict that names the digest of the one before it.
  abbrev pub IsLinked : Value → List Value → Type 0
  IsLinked prior [] = Unit {0}
  IsLinked prior (v ∷ vs) =
      (d : Fields) × (v ≡ obj d)
      × IsAccepted host ports d obj_type
      × (get "prev_digest" d ≡ prior)
      × IsLinked (digest_value host d) vs

  pub verify-dict-IsAccepted :
      (d : Fields) → verify host ports (obj d) obj_type ≡ [] → IsAccepted host ports d obj_type
  verify-dict-IsAccepted d h =
      let (d', e, a) = verify-IsAccepted host ports (obj d) obj_type h in
      let same_dict : d' ≡ d = cc in rw same_dict at a

  link_all-IsLinked :
      (i : ℕ) (prior : Value) (vs : List Value)
      → (link_all host {S = Unit {0}} none ports obj_type i prior vs tt).0 ≡ []
      → IsLinked prior vs
  unfolding link_all verify_by dict_errors
  link_all-IsLinked i prior [] h = tt
  link_all-IsLinked i prior (obj d ∷ vs) h =
      let errors = verify host ports (obj d) obj_type in
      let (here, later) =
        append-eq-nil (rejection_of i errors ++ link_errors i (get "prev_digest" d) prior) _ h in
      let (accepted, linked) =
        append-eq-nil (rejection_of i errors) (link_errors i (get "prev_digest" d) prior) here in
      (
        d,
        refl,
        verify-dict-IsAccepted d (rejection_of-nil i errors accepted),
        link_errors-nil i (get "prev_digest" d) prior linked,
        link_all-IsLinked (suc i) (digest_value host d) vs later,
      )
  link_all-IsLinked i prior (_ ∷ vs) h = cc

  pub verify_chain-IsLinked :
      (genesis : Option String) (vs : List Value)
      → (verify_chain host {S = Unit {0}} none ports obj_type genesis vs tt).0 ≡ []
      → (vs ≢ []) × IsLinked (opt_str genesis) vs
  unfolding verify_chain
  verify_chain-IsLinked genesis [] h = cc
  verify_chain-IsLinked genesis (v ∷ vs) h =
      (λ e. cc, link_all-IsLinked 0 (opt_str genesis) (v ∷ vs) h)

  -- The part of the chain at an object and its successor.
  pub IsLinked-successor :
      (prior : Value) (before : List Value) (a b : Fields) (after : List Value)
      → IsLinked prior (before ++ obj a ∷ obj b ∷ after)
      → IsAccepted host ports a obj_type × (get "prev_digest" b ≡ digest_value host a)
  IsLinked-successor prior [] a b after (d, e, ok, link, (d', e', ok', link', rest)) =
      let first : d ≡ a = cc in
      let second : d' ≡ b = cc in (rw first at ok, (let l = rw second at link' in rw first at l))
  IsLinked-successor prior (v ∷ before) a b after (d, e, ok, link, rest) =
      IsLinked-successor (digest_value host d) before a b after rest
