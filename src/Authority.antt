-- ===== src/Authority.antt =====
-- authority.py: which role may drive which verb against which maker.
pub mod Laws
use a2a_compliance.Prelude.{
  String, List, [], ◌∷◌, Bool, true, false, not, ◌&&◌, ◌||◌, Option, none, some, contains, is_none,
  ◌==◌, if◌then◌else◌,
}
use a2a_compliance.Json.{Value, str, bool, opt_str}
use a2a_compliance.Verbs.{
  Verb, query_state, issue_directive, hold, resume, halt, report_state, ack, escalate,
}

abbrev pub compliance_roles : List String
compliance_roles = "policy-compliance" ∷ "grounding" ∷ "verify" ∷ []

abbrev pub human_role : String
human_role = "human"

-- `verb in _STEER_VERBS`
abbrev pub is_steer_verb : Verb → Bool
is_steer_verb query_state = true
is_steer_verb issue_directive = true
is_steer_verb hold = true
is_steer_verb resume = true
is_steer_verb halt = true
is_steer_verb _ = false

-- `verb in _RESERVED_VERBS`
abbrev pub is_reserved_verb : Verb → Bool
is_reserved_verb halt = true
is_reserved_verb _ = false

-- The reasons that `authorize` gives.
pub data AuthorizationReason : Type 0 where
  not_a_steer_verb not_a_compliance_role not_overseen may_steer may_steer_reserved :
      AuthorizationReason

pub record Authorization : Type 0 where
  pub allowed : Bool
  pub reserved : Bool
  pub reason : AuthorizationReason
  pub basis : String
  pub role : Option String
  pub oversees : Option String

-- `interfaces.a2a_control.Authority`, the block `authority` of an envelope. A parsed one holds what
-- the wire says, so the fields are JSON values; `None` is `null`.
pub record AuthorityBlock : Type 0 where
  pub basis : Value
  pub role : Value
  pub oversees : Value
  pub reserved : Value

unfoldable pub to_block : Authorization → AuthorityBlock
to_block a = record {
  basis = str a.basis;
  role = opt_str a.role;
  oversees = opt_str a.oversees;
  reserved = bool a.reserved;
}

-- The dict of a role's set of makers, and the flag.
pub record Roster : Type 0 where
  pub oversight : List (String × List String)
  pub oversees_all : Bool

-- `self.oversight.get(role)`
abbrev pub overseen : String → List (String × List String) → Option (List String)
overseen role [] = none
overseen role ((r, makers) ∷ rest) = if r == role then some makers else overseen role rest

abbrev pub default_roster : Roster
default_roster = record { oversight = []; oversees_all = true }

-- `maker_id in self.oversight.get(role, set())`, and whether the role is a key
abbrev oversees_in : Option (List String) → Bool → String → Bool
oversees_in none all maker_id = all
oversees_in (some makers) all maker_id = contains makers maker_id

unfoldable pub oversees : Roster → String → String → Bool
oversees r role maker_id =
    if not (contains compliance_roles role)
    then false
    else oversees_in (overseen role r.oversight) r.oversees_all maker_id

-- `self.oversight.setdefault(role, set()).add(maker_id)`
assign_in : String → String → List (String × List String) → List (String × List String)
assign_in role maker_id [] = (role, maker_id ∷ []) ∷ []
assign_in role maker_id ((r, makers) ∷ rest) =
    let more = assign_in role maker_id rest in
    if r == role then (r, maker_id ∷ makers) ∷ rest else (r, makers) ∷ more

unfoldable pub assign : Roster → String → String → Roster
unfolding assign_in
assign r role maker_id = record r { oversight = assign_in role maker_id r.oversight }

abbrev verdict : Bool → Bool → AuthorizationReason → String → String → Authorization
verdict allowed reserved reason from_role maker_id = record {
  allowed = allowed;
  reserved = reserved;
  reason = reason;
  basis = "role";
  role = some from_role;
  oversees = some maker_id;
}

abbrev pub roster_or_default : Option Roster → Roster
roster_or_default none = default_roster
roster_or_default (some r) = r

unfoldable pub authorize : String → Verb → String → Option Roster → Authorization
authorize from_role verb maker_id roster =
    if not (is_steer_verb verb)
    then verdict false false not_a_steer_verb from_role maker_id
    else if not (contains compliance_roles from_role)
    then verdict false false not_a_compliance_role from_role maker_id
    else if not (oversees (roster_or_default roster) from_role maker_id)
    then verdict false false not_overseen from_role maker_id
    else verdict true (is_reserved_verb verb)
        (if is_reserved_verb verb then may_steer_reserved else may_steer) from_role maker_id
