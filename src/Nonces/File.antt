-- ===== src/Nonces/File.antt =====
-- nonce_store.py: one marker file for each pair, named by the pair's sanitised texts.
pub mod Collision
use Prim.Native.Char.{Char}
use a2a_compliance.Prelude.{
  Bool, ◌||◌, String, if◌then◌else◌, List, ◌∷◌, contains, arith, [], false, eq_refl, true, ◌==◌,
  eq_iff,
}
use a2a_compliance.Json.{Value}
use a2a_compliance.Text.{concat, is_code}
use a2a_compliance.Nonces.{NonceStore, IsNonceStore, IsShared}

module _ (isalnum : Char → Bool) where
  abbrev keep : Char → Bool
  keep c = isalnum c || (is_code c b'-' || (is_code c b'_' || is_code c b'.'))

  -- `safe_component` of a text
  unfoldable pub safe_component : String → String
  safe_component String.[] = ""
  safe_component (String.◌∷◌ c s) = String.◌∷◌ (if keep c then c else "_") (safe_component s)

  -- The markers that exist are the store's state; `str_of` is Python's `str`.
  module _ (str_of : Value → String) where
    -- `_path`, the name in the root directory
    unfoldable pub path : Value → Value → String
    unfolding safe_component
    path run_id nonce =
        concat
          (safe_component (str_of run_id) ∷ "__" ∷ safe_component (str_of nonce) ∷ ".nonce" ∷ [])

    -- `_create`: the exclusive creation of the marker
    unfoldable pub create : List String → Value → Value → Bool × List String
    create markers run_id nonce =
        if contains markers (path run_id nonce)
        then (false, markers)
        else (true, path run_id nonce ∷ markers)

    unfoldable pub seen : List String → Value → Value → Bool
    seen markers run_id nonce = contains markers (path run_id nonce)

    unfoldable pub record_nonce : List String → Value → Value → List String
    unfolding create
    record_nonce markers run_id nonce = (create markers run_id nonce).1

    abbrev pub file_store : NonceStore (List String)
    file_store = record { seen = seen; record_nonce = record_nonce; consume = create }

    -- The file-backed store keeps the promises of the port.
    pub file_store-IsNonceStore : IsNonceStore file_store
    unfolding seen record_nonce create
    file_store-IsNonceStore = record {
      spent = seen;
      seen-record_nonce = λ s r n. ground (arith, eq_refl (path r n));
      seen_kept = λ s r n r' n' h. ground arith;
      consume-spent = λ s r n. ground arith;
      spent-consume = λ s r n. ground (arith, eq_refl (path r n));
      spent_kept = λ s r n r' n' h. ground arith;
      spent_kept_record = λ s r n r' n' h. ground arith;
      seen_kept_consume = λ s r n r' n' h. ground arith;
    }

    -- whether two pairs have the same marker
    abbrev pub same_marker : Value → Value → Value → Value → Bool
    unfolding path
    same_marker r n r' n' = path r n == path r' n'

    -- In the file-backed store `record` and `consume` share a marker: `consume` answers true
    -- exactly for a pair whose marker does not exist, and each of the two makes just the pairs with
    -- the given pair's marker seen.
    pub file_store-IsShared : IsShared file_store same_marker
    unfolding seen record_nonce create path
    file_store-IsShared = record {
      consume-seen = λ s r n. ground arith;
      seen-consume = λ s r n r' n'. ground (arith, eq_iff (path r n) (path r' n'));
      seen-record_nonce = λ s r n r' n'. ground (arith, eq_iff (path r n) (path r' n'));
    }
