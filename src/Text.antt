-- ===== src/Text.antt =====
-- The parts of Python's `str` and `json` that the source calls: decimal printing, `join`,
-- `removeprefix`, `partition`, `strip` and `json.dumps` of one text.
use Prim.Native.Char.{Char, code}
use Prim.Native.String.{◌++◌, count}
use text.Mathlib.Text.{starts_with, ◌==◌}
use a2a_compliance.Prelude.{
  ℕ, zero, suc, ◌+◌, ◌-◌, ◌*◌, ◌/◌, ◌%◌, String, List, [], ◌∷◌, Bool, ◌&&◌, ltb, leb, ◌≡◌, refl,
  if◌then◌else◌,
}

abbrev pub is_code : Char → ℕ → Bool
is_code c n = leb (code c) n && leb n (code c)

-- `"".join(parts)`, and so an f-string of its parts
abbrev pub concat : List String → String
concat [] = ""
concat (s ∷ ss) = s ++ concat ss

-- `sep.join(parts)`
abbrev pub join : String → List String → String
join sep [] = ""
join sep (s ∷ []) = s
join sep (s ∷ t ∷ ss) = s ++ (sep ++ join sep (t ∷ ss))

digit : ℕ → Char
digit zero = "0"
digit (suc zero) = "1"
digit (suc (suc zero)) = "2"
digit (suc (suc (suc zero))) = "3"
digit (suc (suc (suc (suc zero)))) = "4"
digit (suc (suc (suc (suc (suc zero))))) = "5"
digit (suc (suc (suc (suc (suc (suc zero)))))) = "6"
digit (suc (suc (suc (suc (suc (suc (suc zero))))))) = "7"
digit (suc (suc (suc (suc (suc (suc (suc (suc zero)))))))) = "8"
digit _ = "9"

-- The digits of n in front of a text. A number has fewer digits than its value plus one.
digits : ℕ → ℕ → String → String
digits zero n s = s
digits (suc f) n s =
    let more = digits f (n / 10) (String.◌∷◌ (digit (n % 10)) s) in
    if ltb n 10 then String.◌∷◌ (digit n) s else more

-- `str(n)`
unfoldable pub show : ℕ → String
unfolding digits digit
show n = digits (suc n) n ""

-- `s.partition(c)` without the separator
unfoldable pub partition : ℕ → String → String × String
partition n String.[] = ("", "")
partition n (String.◌∷◌ c s) =
    let (a, b) = partition n s in if is_code c n then ("", s) else (String.◌∷◌ c a, b)

-- `s.lstrip("0")`, `s.rstrip(c)`
unfoldable pub lstrip_zeros : String → String
lstrip_zeros String.[] = ""
lstrip_zeros (String.◌∷◌ c s) = if is_code c b'0' then lstrip_zeros s else String.◌∷◌ c s

unfoldable pub rstrip : ℕ → String → String
rstrip n String.[] = ""
rstrip n (String.◌∷◌ c s) =
    let r = rstrip n s in if is_code c n && r == "" then "" else String.◌∷◌ c r

-- `c * n`
unfoldable pub repeat : Char → ℕ → String
repeat c zero = ""
repeat c (suc n) = String.◌∷◌ c (repeat c n)

-- `s[:n]`, `s[n:]` by characters
unfoldable pub take_chars : ℕ → String → String
take_chars zero s = ""
take_chars (suc n) String.[] = ""
take_chars (suc n) (String.◌∷◌ c s) = String.◌∷◌ c (take_chars n s)

unfoldable pub drop_chars : ℕ → String → String
drop_chars zero s = s
drop_chars (suc n) String.[] = ""
drop_chars (suc n) (String.◌∷◌ c s) = drop_chars n s

-- `s.removeprefix(p)`
unfoldable pub remove_prefix : String → String → String
unfolding drop_chars
remove_prefix p s = if starts_with s p then drop_chars (count p) s else s

-- `int(s)` of unsigned decimal digits
parse_digits : ℕ → String → ℕ
parse_digits n String.[] = n
parse_digits n (String.◌∷◌ c s) = parse_digits (n * 10 + (code c - b'0')) s

-- `int(s)` of an exponent as `repr` prints it: the part to add and the part to subtract
unfoldable pub parse_exponent : String → ℕ × ℕ
unfolding parse_digits
parse_exponent (String.◌∷◌ c s) =
    if is_code c b'-'
    then (0, parse_digits 0 s)
    else if is_code c b'+'
    then (parse_digits 0 s, 0)
    else (parse_digits 0 (String.◌∷◌ c s), 0)
parse_exponent String.[] = (0, 0)

hex_digit : ℕ → Char
unfolding digit
hex_digit n =
    if ltb n 10
    then digit n
    else if ltb n 11
    then "a"
    else if ltb n 12
    then "b"
    else if ltb n 13
    then "c"
    else if ltb n 14
    then "d"
    else if ltb n 15
    then "e"
    else "f"

-- one character in a JSON text
escape : Char → String
unfolding hex_digit
escape c =
    if is_code c b'"'
    then "\\\""
    else if is_code c b'\\'
    then "\\\\"
    else if is_code c 10
    then "\\n"
    else if is_code c 13
    then "\\r"
    else if is_code c 9
    then "\\t"
    else if is_code c 12
    then "\\f"
    else if is_code c 8
    then "\\b"
    else if ltb (code c) 32
    then "\\u00" ++ String.◌∷◌ (hex_digit (code c / 16)) (String.◌∷◌ (hex_digit (code c % 16)) "")
    else String.◌∷◌ c ""

unfoldable pub escape_all : String → String
unfolding escape
escape_all String.[] = ""
escape_all (String.◌∷◌ c s) = escape c ++ escape_all s

-- `json.dumps(s, ensure_ascii=False)`
unfoldable pub dumps : String → String
unfolding escape_all
dumps s = "\"" ++ (escape_all s ++ "\"")

show_runs : show 40960 ≡ "40960"
unfolding show
show_runs = refl

dumps_runs : dumps "a\"\n\u{1}z" ≡ "\"a\\\"\\n\\u0001z\""
unfolding dumps
dumps_runs = refl
