-- ===== src/Wire/Canonical.antt =====
-- wire/canonical.py: the RFC 8785 text of a JSON value, and its SHA-256 digest.
pub mod Laws
use Prim.Native.Char.{code}
use Prim.Native.String.{◌++◌, count}
use mathlib.Core.Option
use text.Mathlib.Text.{starts_with}
use a2a_compliance.Prelude.{
  ℕ, ◌+◌, ◌-◌, ◌/◌, ◌%◌, String, List, [], ◌∷◌, map, Bool, true, false, ◌&&◌, ◌||◌, Option, none,
  some, ltb, leb, ◌==◌, if◌then◌else◌, ◌≡◌, refl,
}
use a2a_compliance.Text.{
  concat, join, show, dumps, partition, lstrip_zeros, rstrip, repeat, take_chars, drop_chars,
  parse_exponent, remove_prefix,
}
use a2a_compliance.Json.{
  Value, Items, Fields, null, bool, nat, neg, float, str, arr, obj, nil, cons, end, field,
}
use a2a_compliance.Host.{Host}

-- `_utf16_key`
unfoldable pub utf16_key : String → List ℕ
utf16_key String.[] = []
utf16_key (String.◌∷◌ c s) =
    let cp = code c in
    if ltb 0xFFFF cp
    then (0xD800 + (cp - 0x10000) / 1024) ∷ (0xDC00 + (cp - 0x10000) % 1024) ∷ utf16_key s
    else cp ∷ utf16_key s

-- `<` of two tuples of numbers
unfoldable pub tuple_lt : List ℕ → List ℕ → Bool
tuple_lt [] [] = false
tuple_lt [] (_ ∷ _) = true
tuple_lt (_ ∷ _) [] = false
tuple_lt (a ∷ as') (b ∷ bs) = ltb a b || (leb a b && tuple_lt as' bs)

-- `_number_to_es_string` from the digits of `repr`: `up - down` is the number n of the source, and
-- k is the count of the digits.
es_body : String → ℕ → ℕ → ℕ → String
unfolding repeat take_chars drop_chars show
es_body digits k up down =
    if leb (k + down) up && leb up (21 + down)
    then digits ++ repeat "0" (up - down - k)
    else if ltb down up && leb up (21 + down)
    then take_chars (up - down) digits ++ ("." ++ drop_chars (up - down) digits)
    else if ltb down (up + 6) && leb up down
    then "0." ++ (repeat "0" (down - up) ++ digits)
    else (if leb k 1 then digits else take_chars 1 digits ++ ("." ++ drop_chars 1 digits))
      ++ (if leb (down + 1) up then "e+" ++ show (up - down - 1) else "e-" ++ show (down + 1 - up))

unfoldable pub number_to_es_string : String → Option String
unfolding es_body partition lstrip_zeros rstrip parse_exponent remove_prefix
number_to_es_string text =
    let body = remove_prefix "-" text in
    let sign = if starts_with text "-" then "-" else "" in
    let (mantissa, exp_text) = partition b'e' body in
    let (plus, minus) = parse_exponent exp_text in
    let (int_part, frac_part) = partition b'.' mantissa in
    let all_digits = int_part ++ frac_part in
    let digits = lstrip_zeros all_digits in
    let kept = rstrip b'0' digits in
    let kept' = if kept == "" then "0" else kept in
    if text == "nan" || (text == "inf" || text == "-inf")
    then none
    else if body == "0.0" || digits == ""
    then some "0"
    else some (
        sign
        ++ es_body kept' (count kept') (count int_part + plus)
            (count all_digits - count digits + minus))

-- `sorted(items, key=…)`: stable
unfoldable pub insert_item : String × String → List (String × String) → List (String × String)
unfolding utf16_key tuple_lt
insert_item e [] = e ∷ []
insert_item (k, v) ((j, w) ∷ l) =
    let rest = insert_item (k, v) l in
    if tuple_lt (utf16_key j) (utf16_key k) then (j, w) ∷ rest else (k, v) ∷ (j, w) ∷ l

unfoldable pub sort_items : List (String × String) → List (String × String)
unfolding insert_item
sort_items [] = []
sort_items (e ∷ l) = insert_item e (sort_items l)

abbrev pub pair_text : String × String → String
pair_text (k, v) = concat (dumps k ∷ ":" ∷ v ∷ [])

abbrev pub pair_with :
    String → Option String → Option (List (String × String)) → Option (List (String × String))
pair_with k (some v) (some l) = some ((k, v) ∷ l)
pair_with k _ _ = none

abbrev pub cons_text : Option String → Option (List String) → Option (List String)
cons_text (some v) (some l) = some (v ∷ l)
cons_text _ _ = none

-- `_canon`; `none` is the `ValueError` of a float that is no number.
unfoldable mutual
  pub canon : Value → Option String
  canon null = some "null"
  canon (bool true) = some "true"
  canon (bool false) = some "false"
  canon (nat n) = some (show n)
  canon (neg n) = some ("-" ++ show (n + 1))
  canon (float r) = number_to_es_string r
  canon (str s) = some (dumps s)
  canon (arr vs) = Option.map (λ l. concat ("[" ∷ join "," l ∷ "]" ∷ [])) (canon_items vs)
  canon (obj d) =
      Option.map (λ l. concat ("{" ∷ join "," (map pair_text (sort_items l)) ∷ "}" ∷ []))
        (canon_fields d)

  pub canon_items : Items → Option (List String)
  canon_items nil = some []
  canon_items (cons v vs) = cons_text (canon v) (canon_items vs)

  pub canon_fields : Fields → Option (List (String × String))
  canon_fields end = some []
  canon_fields (field k v d) = pair_with k (canon v) (canon_fields d)

-- `subject`: a dict without `signature` and `subject_digest`
unfoldable pub subject : Fields → Fields
subject end = end
subject (field k v d) =
    let rest = subject d in
    if k == "signature" || k == "subject_digest" then rest else field k v rest

module _ (host : Host) where
  -- `digest_hex`
  unfoldable pub digest_hex : Value → Option String
  digest_hex v = Option.map host.sha256_hex (canon v)

  unfoldable pub subject_digest : Fields → Option String
  unfolding digest_hex
  subject_digest d = digest_hex (obj (subject d))

es_strings :
    (number_to_es_string "1e+20" ≡ some "100000000000000000000")
    × (number_to_es_string "1e+21" ≡ some "1e+21")
    × (number_to_es_string "-0.00025" ≡ some "-0.00025")
    × (number_to_es_string "1.5e-07" ≡ some "1.5e-7")
    × (number_to_es_string "1234.5" ≡ some "1234.5")
    × (number_to_es_string "100.0" ≡ some "100")
unfolding number_to_es_string
es_strings = (refl, refl, refl, refl, refl, refl)

canon_runs :
    canon (obj (field "b" (arr (cons (nat 1) (cons null nil))) (field "a" (str "x") end)))
    ≡ some "{\"a\":\"x\",\"b\":[1,null]}"
unfolding canon sort_items dumps show
canon_runs = refl
