-- ===== src/Authority/Laws.antt =====
-- What `authorize` grants.
use a2a_compliance.Prelude.{
  String, true, Option, ◌≡◌, ◌↔◌, contains, arith, none, if◌then◌else◌, ◌==◌, ◌∷◌, ◌&&◌, eq_iff,
  ◌||◌, refl,
}
use a2a_compliance.Verbs.{Verb, halt}
use a2a_compliance.Authority.{
  Roster, authorize, oversees, compliance_roles, is_steer_verb, roster_or_default, List, assign_in,
  assign, [], Bool, overseen, some, false,
}

-- A verb is allowed exactly if it is a steering verb, its sender has a compliance role, and the
-- roster gives that role oversight of the maker.
pub authorize-allowed :
    (role : String) (verb : Verb) (maker : String) (roster : Option Roster)
    → ((authorize role verb maker roster).allowed ≡ true) ↔ (
        (is_steer_verb verb ≡ true)
        × (contains compliance_roles role ≡ true)
        × (oversees (roster_or_default roster) role maker ≡ true))
unfolding authorize
authorize-allowed role verb maker roster = ground arith

-- An allowed verb is reserved exactly if it is `halt`, and nothing that is refused is reserved.
pub authorize-reserved :
    (role : String) (verb : Verb) (maker : String) (roster : Option Roster)
    → ((authorize role verb maker roster).reserved ≡ true)
      ↔ (((authorize role verb maker roster).allowed ≡ true) × (verb ≡ halt))
unfolding authorize
authorize-reserved role verb maker roster = ground arith

abbrev makers_of : Option (List String) → List String
makers_of none = []
makers_of (some makers) = makers

-- The makers that a role's set lists.
abbrev pub listed : Option (List String) → String → Bool
listed none maker = false
listed (some makers) maker = contains makers maker

overseen-assign_in :
    (role maker role' : String) (o : List (String × List String))
    → overseen role' (assign_in role maker o)
      ≡ (if role == role' then some (maker ∷ makers_of (overseen role o)) else overseen role' o)
unfolding assign_in
overseen-assign_in role maker role' [] = refl
overseen-assign_in role maker role' ((r, makers) ∷ o) =
    ground (
      arith,
      eq_iff r role,
      eq_iff r role',
      eq_iff role role',
      overseen-assign_in role maker role' o,
    )

-- `assign` adds the maker to the role's set. A role without a set had, by default, every maker:
-- after its first `assign` it oversees the assigned maker and no other.
pub oversees-assign :
    (r : Roster) (role maker role' maker' : String)
    → oversees (assign r role maker) role' maker' ≡ (
        if role == role'
        then contains compliance_roles role'
          && (maker == maker' || listed (overseen role r.oversight) maker')
        else oversees r role' maker')
unfolding oversees assign
oversees-assign r role maker role' maker' =
    rw (overseen-assign_in role maker role' r.oversight) (ground (arith, eq_iff role role'))
