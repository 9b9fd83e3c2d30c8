-- ===== src/Nonces/File/Collision.antt =====
-- The markers of the file store do not separate all pairs.
use text.Mathlib.TextLemmas.{cons-append, append_assoc, nil-append}
use Prim.Native.Char.{Char}
use Prim.Native.String.{String, ◌++◌}
use a2a_compliance.Prelude.{
  Bool, true, false, ◌≡◌, refl, sym, ap, ◌∙◌, if◌then◌else◌, List, arith, eq_refl,
}
use a2a_compliance.Nonces.File.{safe_component, keep, path, file_store, create}
use a2a_compliance.Json.{Value, str}

if_same : {A : Type 0} (b : Bool) (c : A) → (if b then c else c) ≡ c
if_same true c = refl
if_same false c = refl

module _ (isalnum : Char → Bool) where
  safe_component-append :
      (s t : String)
      → safe_component isalnum (s ++ t) ≡ safe_component isalnum s ++ safe_component isalnum t
  unfolding safe_component
  safe_component-append String.[] t =
      ap (safe_component isalnum) (nil-append t) ∙ sym (nil-append (safe_component isalnum t))
  safe_component-append (String.◌∷◌ c s) t =
      ap (safe_component isalnum) (cons-append c s t)
      ∙ (ap (λ u. String.◌∷◌ (if keep isalnum c then c else "_") u) (safe_component-append s t)
          ∙ sym (
              cons-append (if keep isalnum c then c else "_") (safe_component isalnum s)
                (safe_component isalnum t)))

  safe_underscores : safe_component isalnum "__" ≡ "__"
  unfolding safe_component
  safe_underscores = simp (if_same)

  safe_component-join :
      (a b : String)
      → safe_component isalnum (a ++ ("__" ++ b))
        ≡ safe_component isalnum a ++ ("__" ++ safe_component isalnum b)
  safe_component-join a b =
      safe_component-append a ("__" ++ b)
      ∙ ap (λ u. safe_component isalnum a ++ u)
          (safe_component-append "__" b ∙ ap (λ u. u ++ safe_component isalnum b) safe_underscores)

  module _ (str_of : Value → String) (str_of-str : (s : String) → str_of (str s) ≡ s) where
    path-join :
        (a b c : String)
        → path isalnum str_of (str (a ++ ("__" ++ b))) (str c)
          ≡ path isalnum str_of (str a) (str (b ++ ("__" ++ c)))
    unfolding path
    path-join a b c =
        rw
          (
            str_of-str (a ++ ("__" ++ b)),
            str_of-str c,
            str_of-str a,
            str_of-str (b ++ ("__" ++ c)),
            safe_component-join a b,
            safe_component-join b c,
          )
          (simp (append_assoc))

    create_twice :
        (markers : List String) (r n r' n' : Value)
        → path isalnum str_of r n ≡ path isalnum str_of r' n'
        → (create isalnum str_of (create isalnum str_of markers r n).1 r' n').0 ≡ false
    unfolding create
    create_twice markers r n r' n' e = ground (arith, eq_refl (path isalnum str_of r n))

    -- The pairs of run `a__b` with nonce `c` and of run `a` with nonce `b__c` share a marker: once
    -- the file store has consumed the one, it refuses the other. (`str` of a text is the text.)
    pub consume-join :
        (markers : List String) (a b c : String)
        → ((file_store isalnum str_of).consume
            ((file_store isalnum str_of).consume markers (str (a ++ ("__" ++ b))) (str c)).1
            (str a)
            (str (b ++ ("__" ++ c)))).0
          ≡ false
    consume-join markers a b c =
        create_twice markers (str (a ++ ("__" ++ b))) (str c) (str a) (str (b ++ ("__" ++ c)))
          (path-join a b c)
