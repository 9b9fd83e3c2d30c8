-- ===== src/Governance.antt =====
-- governance_block.py: the boundary that a maker declares, the ruling on an action kind, and the
-- block signed by a policy author.
pub mod Laws
pub mod Signed
use mathlib.Core.Option
use a2a_compliance.Prelude.{
  ◌>>=◌, String, Bool, List, if◌then◌else◌, true, some, contains, false, [], none,
}
use a2a_compliance.Json.{
  Value, Items, Fields, arr, obj, get, truthy, cons, end, null, nil, has, as_str, put,
}
use mathlib.Core.Option.{Option}
use a2a_compliance.Wire.Canonical.{cons_text}

pub data SteerDecision : Type 0 where
  steer route_human refuse : SteerDecision

-- The four reasons of `GovernanceBlock.rule`.
pub data RulingReason : Type 0 where
  is_prohibited is_reserved within_actions undeclared : RulingReason

pub record SteerRuling : Type 0 where
  pub decision : SteerDecision
  pub kind : String
  pub reason : RulingReason
  pub reserved_by : Value

-- A set is a list of its members, and `reserved` a dict from the kind to its target.
pub record GovernanceBlock : Type 0 where
  pub grade : Value
  pub action_kinds : List String
  pub reserved : Fields
  pub prohibited : List String
  pub obligations : List String
  pub budget : Fields

-- Prohibited wins over everything, then reserved, then the declared actions.
unfoldable pub rule : GovernanceBlock → String → SteerRuling
rule b kind =
    if contains b.prohibited kind
    then record { decision = refuse; kind = kind; reason = is_prohibited; reserved_by = null }
    else if has kind b.reserved
    then record {
      decision = route_human;
      kind = kind;
      reason = is_reserved;
      reserved_by = get kind b.reserved;
    }
    else if contains b.action_kinds kind
    then record { decision = steer; kind = kind; reason = within_actions; reserved_by = null }
    else record { decision = refuse; kind = kind; reason = undeclared; reserved_by = null }

abbrev pub is_steer : SteerDecision → Bool
is_steer steer = true
is_steer _ = false

unfoldable pub may_steer : GovernanceBlock → String → Bool
may_steer b kind = is_steer (rule b kind).decision

-- `block.get(key, []) or []`: the list, or the empty list for a falsy value; other values do not
-- iterate as lists and are `none`.
abbrev pub list_or_empty : Value → Option Items
list_or_empty (arr vs) = some vs
list_or_empty v = if truthy v then none else some nil

-- `{a["kind"] for a in actions if "kind" in a}`, for dicts whose kinds are texts
unfoldable pub kinds : Items → Option (List String)
kinds nil = some []
kinds (cons (obj a) vs) =
    let rest = kinds vs in if has "kind" a then cons_text (as_str (get "kind" a)) rest else rest
kinds (cons _ vs) = none

-- `{r["kind"]: r.get("by") for r in reserved if "kind" in r}`: the last entry of a kind counts
unfoldable pub reservations : Items → Fields → Option Fields
reservations nil d = some d
reservations (cons (obj r) vs) d =
    let skip = reservations vs d in
    let with_kind : Option Fields = elim (as_str (get "kind" r)) [
      | some k ↦ reservations vs (put k (get "by" r) d)
      | none ↦ none
    ] in
    if has "kind" r then with_kind else skip
reservations (cons _ vs) d = none

-- `set(…)`, `list(…)` of texts
unfoldable pub text_list : Items → Option (List String)
text_list nil = some []
text_list (cons v vs) = cons_text (as_str v) (text_list vs)

-- `dict(block.get("budget", {}) or {})`
abbrev pub dict_or_empty : Value → Option Fields
dict_or_empty (obj d) = some d
dict_or_empty v = if truthy v then none else some end

-- `GovernanceBlock.from_dict`; `none` is an exception on a block of another shape.
unfoldable pub from_dict : Fields → Option GovernanceBlock
unfolding kinds reservations text_list
from_dict block = do
  actions ← list_or_empty (get "actions" block)
  reserved_list ← list_or_empty (get "reserved" block)
  action_kinds ← kinds actions
  reserved ← reservations reserved_list end
  prohibited_list ← list_or_empty (get "prohibited" block)
  prohibited ← text_list prohibited_list
  obligation_list ← list_or_empty (get "obligations" block)
  obligations ← text_list obligation_list
  budget ← dict_or_empty (get "budget" block)
  some (record {
    grade = get "grade" block;
    action_kinds = action_kinds;
    reserved = reserved;
    prohibited = prohibited;
    obligations = obligations;
    budget = budget;
  })
