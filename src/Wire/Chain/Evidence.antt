-- ===== src/Wire/Chain/Evidence.antt =====
-- wire/chain.py: without collisions of SHA-256, an object of an accepted chain determines the
-- signed content of the one before it.
use mathlib.Core.Option
use mathlib.Core.Option.{some-injective}
use a2a_compliance.Host.{CollisionFree, Host}
use a2a_compliance.Wire.Chain.{verify_chain, digest_value}
use a2a_compliance.Wire.Chain.Laws.{verify_chain-IsLinked, IsLinked-successor}
use a2a_compliance.Wire.Verification.Laws.{IsAccepted}
use a2a_compliance.Wire.Canonical.{canon, subject, digest_hex, subject_digest}
use a2a_compliance.Prelude.{String, Option, ◌≡◌, List, some, none, ◌++◌, ap, ◌∷◌, [], sym, ◌∙◌}
use a2a_compliance.Json.{str, Value, Fields, obj, opt_str, get}
use a2a_compliance.Wire.Checks.{Ports}

str-injective : (a b : String) → str a ≡ str b → a ≡ b
str-injective a b h = cc

module _ (host : Host) (free : CollisionFree host) where
  -- Two digests that are equal and not missing are of one text.
  hashes_agree :
      (x y : Option String) (v : Value)
      → Option.map str (Option.map host.sha256_hex x) ≡ some v
      → opt_str (Option.map host.sha256_hex x) ≡ opt_str (Option.map host.sha256_hex y)
      → x ≡ y
  hashes_agree none y v h e = cc
  hashes_agree (some s) none v h e = cc
  hashes_agree (some s) (some t) v h e =
      ap some (free s t (str-injective (host.sha256_hex s) (host.sha256_hex t) e))

  pub digest_value-canon :
      (ports : Ports) (obj_type : String) (a a' : Fields)
      → IsAccepted host ports a obj_type
      → digest_value host a ≡ digest_value host a'
      → canon (obj (subject a)) ≡ canon (obj (subject a'))
  unfolding digest_value subject_digest digest_hex
  digest_value-canon ports obj_type a a' ok e =
      hashes_agree (canon (obj (subject a))) (canon (obj (subject a'))) (get "subject_digest" a)
        ok.digest_bound e

  -- Without collisions of SHA-256, if one accepted chain holds a before b and another holds a'
  -- before b, then the subjects of a and a' have the same canonical text.
  pub verify_chain-canon :
      (ports ports' : Ports) (obj_type : String) (genesis genesis' : Option String)
      (before before' after after' : List Value) (a a' b : Fields)
      → (verify_chain host {S = Unit {0}} none ports obj_type genesis
          (before ++ obj a ∷ obj b ∷ after)
          tt).0
        ≡ []
      → (verify_chain host {S = Unit {0}} none ports' obj_type genesis'
          (before' ++ obj a' ∷ obj b ∷ after')
          tt).0
        ≡ []
      → canon (obj (subject a)) ≡ canon (obj (subject a'))
  verify_chain-canon ports ports' obj_type genesis genesis' before before' after after' a a' b h
        h' =
      let (some_links, links) =
        verify_chain-IsLinked host ports obj_type genesis (before ++ obj a ∷ obj b ∷ after) h in
      let (some_links', links') =
        verify_chain-IsLinked host ports' obj_type genesis' (before' ++ obj a' ∷ obj b ∷ after')
          h' in
      let (ok, link) =
        IsLinked-successor host ports obj_type (opt_str genesis) before a b after links in
      let (ok', link') =
        IsLinked-successor host ports' obj_type (opt_str genesis') before' a' b after' links' in
      digest_value-canon ports obj_type a a' ok (sym link ∙ link')
