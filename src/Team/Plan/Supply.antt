-- ===== src/Team/Plan/Supply.antt =====
-- What a plan reports as missing: nothing exactly if all that is required is available.
use mathlib.Core.List.{Memᴰ}
use a2a_compliance.Prelude.{
  List, ◌++◌, String, ◌≡◌, [], contains, ◌∷◌, true, map, ◌↔◌, arith, refl, inl, ◌⊎◌, inr, ◌≢◌,
  false, Bool, if◌then◌else◌, not, ◌&&◌,
}
use a2a_compliance.Team.Plan.{
  unique, CapabilityInventory, lacking, missing, missing_of, missing_required_of, role_step,
  ControlRequest, steps_of, has_capability, protocol, loomground, TeamProfile, is_loomground,
}
use a2a_compliance.Team.Roles.{Capability, ComplianceRole, compliance_team, key}

append-nil_iff {ℓ} : {A : Type ℓ} (xs ys : List A) → xs ++ ys ≡ [] ↔ (xs ≡ []) × (ys ≡ [])
append-nil_iff [] ys = ground arith
append-nil_iff (x ∷ xs) ys = ground arith

cons-neq-nil : (s : String) (ss : List String) → (s ∷ ss) ≢ []
cons-neq-nil s ss h = cc

false-neq-true : false ≢ true
false-neq-true h = cc

unique-nil : (ss : List String) → unique [] ss ≡ [] ↔ ss ≡ []
unfolding unique
unique-nil [] = ground arith
unique-nil (s ∷ ss) = ground arith

-- Every name is among the available ones.
abbrev pub AllIn : List String → List String → Type 0
AllIn available names = (n : String) → Memᴰ n names → contains available n ≡ true

-- Every required capability is in the inventory.
abbrev pub AllHeld : CapabilityInventory → List Capability → Type 0
AllHeld inv cs = (c : Capability) → Memᴰ c cs → c.required ≡ true → has_capability inv c ≡ true

lacking_cons :
    (prefix : String) (available : List String) (k : String) (ks : List String)
    → lacking prefix available (k ∷ ks) ≡ []
      ↔ (contains available k ≡ true) × (lacking prefix available ks ≡ [])
unfolding lacking
lacking_cons prefix available k ks = ground arith

lacking-AllIn :
    (prefix : String) (available names : List String)
    → lacking prefix available names ≡ [] ↔ AllIn available names
unfolding lacking
lacking-AllIn prefix available [] = (λ h n m. elim m [ ], λ h. refl)
lacking-AllIn prefix available (k ∷ ks) =
    let step = lacking_cons prefix available k ks in
    let rest = lacking-AllIn prefix available ks in
    (
      λ h n m. elim m [ Memᴰ.head e ↦ rw e (step.0 h).0 | Memᴰ.tail m ↦ rest.0 (step.0 h).1 n m ],
      λ h. step.1 (h k (Memᴰ.head refl), rest.1 (λ n m. h n (Memᴰ.tail m))),
    )

missing_head :
    (r h : Bool) (k : String) (ss : List String)
    → (if (if true then r else not r) && not h then k ∷ ss else ss) ≡ []
      ↔ (r ≡ true → h ≡ true) × (ss ≡ [])
missing_head true true k ss = (λ e. (λ t. refl, e), λ p. p.1)
missing_head true false k ss =
    (λ e. absurd (cons-neq-nil k ss e), λ p. absurd (false-neq-true (p.0 refl)))
missing_head false h k ss = (λ e. (λ t. absurd (false-neq-true t), e), λ p. p.1)

missing_cons :
    (inv : CapabilityInventory) (k : Capability) (ks : List Capability)
    → missing inv true (k ∷ ks) ≡ []
      ↔ (k.required ≡ true → has_capability inv k ≡ true) × (missing inv true ks ≡ [])
unfolding missing
missing_cons inv k ks = missing_head k.required (has_capability inv k) (key k) (missing inv true ks)

missing-AllHeld :
    (inv : CapabilityInventory) (cs : List Capability) → missing inv true cs ≡ [] ↔ AllHeld inv cs
unfolding missing
missing-AllHeld inv [] = (λ h c m r. elim m [ ], λ h. refl)
missing-AllHeld inv (k ∷ ks) =
    let step = missing_cons inv k ks in
    let rest = missing-AllHeld inv ks in
    (
      λ h c m. elim m [ Memᴰ.head e ↦ rw e (step.0 h).0 | Memᴰ.tail m ↦ rest.0 (step.0 h).1 c m ],
      λ h. step.1 (h k (Memᴰ.head refl), rest.1 (λ c m. h c (Memᴰ.tail m))),
    )

-- Every required capability of every role is in the inventory.
abbrev pub AllStaffed : CapabilityInventory → List ComplianceRole → Type 0
AllStaffed inv roles = (r : ComplianceRole) → Memᴰ r roles → AllHeld inv r.capabilities

missing_of-AllStaffed :
    (inv : CapabilityInventory) (roles : List ComplianceRole)
    → missing_of (λ s. s.missing_required) (map (role_step inv) roles) ≡ [] ↔ AllStaffed inv roles
unfolding missing_of role_step
missing_of-AllStaffed inv [] = (λ h r m. elim m [ ], λ h. refl)
missing_of-AllStaffed inv (k ∷ ks) =
    let both =
      append-nil_iff (missing inv true k.capabilities)
        (missing_of (λ s. s.missing_required) (map (role_step inv) ks)) in
    let first = missing-AllHeld inv k.capabilities in
    let rest = missing_of-AllStaffed inv ks in
    (
      λ h r m. elim m [
        | Memᴰ.head e ↦ rw e (first.0 (both.0 h).0)
        | Memᴰ.tail m ↦ rest.0 (both.0 h).1 r m
      ],
      λ h. both.1 (first.1 (h k (Memᴰ.head refl)), rest.1 (λ r m. h r (Memᴰ.tail m))),
    )

-- All that a request requires of an inventory in the Loomground profile: the required capabilities
-- of the team's roles, and the tools and the skills that the request names.
pub record IsSupplied (inv : CapabilityInventory) (request : ControlRequest) : Type 0 where
  pub staffed : AllStaffed inv compliance_team
  pub tools : AllIn inv.tools request.require_tools
  pub skills : AllIn inv.skills request.require_skills

missing_required-IsSupplied :
    (inv : CapabilityInventory) (request : ControlRequest)
    → missing_of (λ s. s.missing_required) (map (role_step inv) compliance_team)
          ++ (lacking "tool:" inv.tools request.require_tools
              ++ lacking "skill:" inv.skills request.require_skills)
        ≡ []
      ↔ IsSupplied inv request
missing_required-IsSupplied inv request =
    let outer =
      append-nil_iff (missing_of (λ s. s.missing_required) (map (role_step inv) compliance_team)) (
        lacking "tool:" inv.tools request.require_tools
        ++ lacking "skill:" inv.skills request.require_skills) in
    let inner =
      append-nil_iff (lacking "tool:" inv.tools request.require_tools)
        (lacking "skill:" inv.skills request.require_skills) in
    let team = missing_of-AllStaffed inv compliance_team in
    let tools = lacking-AllIn "tool:" inv.tools request.require_tools in
    let skills = lacking-AllIn "skill:" inv.skills request.require_skills in
    (
      λ h. record {
        staffed = team.0 (outer.0 h).0;
        tools = tools.0 (inner.0 (outer.0 h).1).0;
        skills = skills.0 (inner.0 (outer.0 h).1).1;
      },
      λ s. outer.1 (team.1 s.staffed, inner.1 (tools.1 s.tools, skills.1 s.skills)),
    )

loomground-neq-protocol : loomground ≢ protocol
loomground-neq-protocol h = cc

profile-nil :
    (profile : TeamProfile) (required : List String)
    → unique [] (if is_loomground profile then required else []) ≡ []
      ↔ (profile ≡ protocol) ⊎ (required ≡ [])
profile-nil protocol required = ((λ h. inl refl), λ h. (unique-nil []).1 refl)
profile-nil loomground required = (
  (λ h. inr ((unique-nil required).0 h)),
  λ h. elim h [ inl e ↦ absurd (loomground-neq-protocol e) | inr e ↦ (unique-nil required).1 e ],
)

steps-loomground :
    (inv : CapabilityInventory) (profile : TeamProfile) (rest : List String)
    → (if is_loomground profile
        then missing_of (λ s. s.missing_required) (steps_of inv profile) ++ rest
        else [])
      ≡ (if is_loomground profile
          then missing_of (λ s. s.missing_required) (map (role_step inv) compliance_team) ++ rest
          else [])
unfolding steps_of
steps-loomground inv protocol rest = refl
steps-loomground inv loomground rest = refl

-- Nothing required is missing exactly in the protocol profile or with all that is required.
pub missing_required_of-IsSupplied :
    (inv : CapabilityInventory) (request : ControlRequest)
    → missing_required_of inv request ≡ [] ↔ (request.profile ≡ protocol) ⊎ IsSupplied inv request
unfolding missing_required_of
missing_required_of-IsSupplied inv request =
    let rest =
      lacking "tool:" inv.tools request.require_tools
      ++ lacking "skill:" inv.skills request.require_skills in
    let reported =
      missing_of (λ s. s.missing_required) (map (role_step inv) compliance_team) ++ rest in
    let step = profile-nil request.profile reported in
    let supply = missing_required-IsSupplied inv request in
    let same = steps-loomground inv request.profile rest in
    (
      λ h. elim (step.0 (rw same at h)) [ inl e ↦ inl e | inr e ↦ inr (supply.0 e) ],
      λ h. rw same (step.1 (elim h [ inl e ↦ inl e | inr s ↦ inr (supply.1 s) ])),
    )
