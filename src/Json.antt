-- ===== src/Json.antt =====
-- The JSON values that the wire modules handle as Python objects. A dict is its list of fields in
-- insertion order; `nat n` and `neg n` are the integers n and -(n + 1); a float is known by its
-- `repr`.
pub mod Equality
pub mod Laws
use a2a_compliance.Prelude.{
  ℕ, zero, String, List, [], ◌∷◌, Bool, true, false, not, ◌&&◌, ◌||◌, Option, none, some, ◌==◌,
  if◌then◌else◌,
}

mutual
  pub data Fields : Type 0 where
    field : String → Value → Fields → Fields
    end : Fields

  pub data Value : Type 0 where
    obj : Fields → Value
    arr : Items → Value
    null : Value
    bool : Bool → Value
    nat neg : ℕ → Value
    str float : String → Value

  pub data Items : Type 0 where
    cons : Value → Items → Items
    nil : Items

-- `d.get(k)`: `None` if the key is missing.
abbrev pub get : String → Fields → Value
get k end = null
get k (field j v d) = if j == k then v else get k d

-- `k in d`
abbrev pub has : String → Fields → Bool
has k end = false
has k (field j v d) = j == k || has k d

-- `d[k] = v`: an old key keeps its place.
abbrev pub put : String → Value → Fields → Fields
put k v end = field k v end
put k v (field j w d) = let rest = put k v d in if j == k then field k v d else field j w rest

-- `x is None`
abbrev pub is_null : Value → Bool
is_null null = true
is_null _ = false

-- `isinstance(x, dict)`, with the dict
abbrev pub as_dict : Value → Option Fields
as_dict (obj d) = some d
as_dict _ = none

-- `isinstance(x, str)`, with the text
abbrev pub as_str : Value → Option String
as_str (str s) = some s
as_str _ = none

-- `x == s` for a text s
abbrev pub is_str : Value → String → Bool
is_str (str t) s = t == s
is_str _ s = false

-- `bool(x)`
abbrev pub truthy : Value → Bool
truthy null = false
truthy (bool b) = b
truthy (nat zero) = false
truthy (nat _) = true
truthy (neg _) = true
truthy (float r) = not (r == "0.0" || r == "-0.0")
truthy (str s) = not (s == "")
truthy (arr nil) = false
truthy (arr _) = true
truthy (obj end) = false
truthy (obj _) = true

-- `(x or {}).get(k)` where x is a dict or falsy
abbrev pub get_in : String → Value → Value
get_in k (obj d) = get k d
get_in k _ = null

abbrev pub items : List Value → Items
items [] = nil
items (v ∷ vs) = cons v (items vs)

abbrev pub texts : List String → Items
texts [] = nil
texts (s ∷ ss) = cons (str s) (texts ss)

-- an optional text: `None` is `null`
abbrev pub opt_str : Option String → Value
opt_str none = null
opt_str (some s) = str s

-- `d.get(k, default)`
abbrev pub get_default : String → Value → Fields → Value
get_default k v d = if has k d then get k d else v

-- `if x is not None: d[k] = x`
abbrev pub put_given : String → Value → Fields → Fields
put_given k v d = if is_null v then d else put k v d

-- `d[k]`, or `KeyError`
abbrev pub item : String → Fields → Option Value
item k d = if has k d then some (get k d) else none
