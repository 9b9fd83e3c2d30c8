-- ===== src/Team/Plan.antt =====
-- team.py: the control plan that the compliance team hands to a host's orchestrator.
pub mod Supply
pub mod Laws
use mathlib.Core.Option
use a2a_compliance.Prelude.{
  List, String, Option, Bool, true, ◌∷◌, map, if◌then◌else◌, [], contains, false, not, ◌++◌, ◌&&◌,
  some, is_empty, none, is_none, ◌||◌,
}
use a2a_compliance.Team.Roles.{
  Capability, ComplianceRole, tool, key, compliance_team, skill, contract, distribution,
}
use a2a_compliance.Grounding.{GroundingContext, Action, GroundingResult, action_route_human}
use a2a_compliance.Governance.{
  SteerDecision, rule, GovernanceBlock, SteerRuling, is_steer, refuse, route_human, steer,
}
use a2a_compliance.Json.{Fields, field, str, end, obj}
use a2a_compliance.Host.{Host}
use a2a_compliance.Wire.Canonical.{digest_hex}
use a2a_compliance.Text.{concat}

pub data TeamProfile : Type 0 where
  protocol loomground : TeamProfile

pub record CapabilityInventory : Type 0 where
  pub tools : List String
  pub skills : List String
  pub contracts : List String
  pub distributions : List String

-- `CapabilityInventory.has`
unfoldable pub has_capability : CapabilityInventory → Capability → Bool
has_capability inv c = elim c.kind [
  | tool ↦ contains inv.tools c.name
  | skill ↦ contains inv.skills c.name
  | contract ↦ contains inv.contracts c.name
  | distribution ↦ contains inv.distributions c.name
]

pub record ControlRequest : Type 0 where
  pub context : GroundingContext
  pub target_kind : String
  pub governance : GovernanceBlock
  pub profile : TeamProfile
  pub require_tools : List String
  pub require_skills : List String

pub record RoleStep : Type 0 where
  pub role : String
  pub purpose : String
  pub consumes : List String
  pub missing_required : List String
  pub missing_supporting : List String

-- The text of `ControlPlan.disposition`: "refuse", a control action, or "advisory".
pub data Disposition : Type 0 where
  disposition_refuse disposition_advisory : Disposition
  disposition_action : Action → Disposition

pub record ControlPlan : Type 0 where
  pub profile : TeamProfile
  pub maker_id : String
  pub target_kind : String
  pub steps : List RoleStep
  pub ruling : SteerRuling
  pub ready : Bool
  pub disposition : Disposition
  pub missing_required : List String
  pub missing_supporting : List String
  pub obligations : List String
  pub grounding_result : Option GroundingResult
  pub recommended_action : Action
  pub action_digest : String

abbrev pub is_loomground : TeamProfile → Bool
is_loomground loomground = true
is_loomground protocol = false

-- The keys of a role's capabilities that the inventory lacks, of those that are required or not.
unfoldable pub missing : CapabilityInventory → Bool → List Capability → List String
unfolding has_capability
missing inv required [] = []
missing inv required (c ∷ cs) =
    let rest = missing inv required cs in
    let wanted = if required then c.required else not c.required in
    if wanted && not (has_capability inv c) then key c ∷ rest else rest

-- `dict.fromkeys(…)`: the first occurrence of each text
unfoldable pub unique : List String → List String → List String
unique seen [] = []
unique seen (s ∷ ss) =
    let skipped = unique seen ss in
    let kept = unique (s ∷ seen) ss in if contains seen s then skipped else s ∷ kept

-- `for name in names: if name not in available: required.append(f"{prefix}{name}")`
unfoldable pub lacking : String → List String → List String → List String
lacking prefix available [] = []
lacking prefix available (n ∷ ns) =
    let rest = lacking prefix available ns in
    if contains available n then rest else concat (prefix ∷ n ∷ []) ∷ rest

unfoldable pub role_step : CapabilityInventory → ComplianceRole → RoleStep
unfolding missing
role_step inv r = record {
  role = r.id;
  purpose = r.purpose;
  consumes = map key r.capabilities;
  missing_required = missing inv true r.capabilities;
  missing_supporting = missing inv false r.capabilities;
}

unfoldable pub missing_of : (RoleStep → List String) → List RoleStep → List String
missing_of part [] = []
missing_of part (s ∷ ss) = part s ++ missing_of part ss

-- `steps`: none in the protocol profile
unfoldable pub steps_of : CapabilityInventory → TeamProfile → List RoleStep
unfolding role_step
steps_of inv profile = if is_loomground profile then map (role_step inv) compliance_team else []

-- `missing_required`
unfoldable pub missing_required_of : CapabilityInventory → ControlRequest → List String
unfolding unique lacking missing_of steps_of
missing_required_of inv request = unique [] (
    if is_loomground request.profile
    then missing_of (λ s. s.missing_required) (steps_of inv request.profile)
      ++ (lacking "tool:" inv.tools request.require_tools
          ++ lacking "skill:" inv.skills request.require_skills)
    else [])

unfoldable pub disposition_of :
    SteerDecision → List String → Option GroundingResult → TeamProfile → Disposition
disposition_of refuse lack result profile = disposition_refuse
disposition_of route_human lack result profile = disposition_action action_route_human
disposition_of steer lack result profile =
    let assessed : Disposition = elim result [
      | some r ↦ disposition_action r.recommended_action
      | none ↦
          if is_loomground profile
          then disposition_action action_route_human
          else disposition_advisory
    ] in
    if not (is_empty lack) then disposition_action action_route_human else assessed

-- `action_subject`
abbrev pub action_subject : ControlRequest → Fields
action_subject request = field "maker_id" (str request.context.maker_id) (
    field "target_kind" (str request.target_kind)
      (field "proposed_action" request.context.proposed_action end))

-- `boundary_ready and not missing_required and assessed`
abbrev pub ready_of : SteerDecision → List String → Option GroundingResult → TeamProfile → Bool
ready_of decision lack result profile =
    (is_steer decision && is_empty lack) && (not (is_none result) || not (is_loomground profile))

abbrev pub recommended : Option GroundingResult → Action
recommended none = action_route_human
recommended (some r) = r.recommended_action

-- The plan, once the digest of its action is known.
unfoldable pub plan_with :
    CapabilityInventory → ControlRequest → Option GroundingResult → String → ControlPlan
unfolding rule steps_of missing_required_of disposition_of unique missing_of
plan_with inv request result digest =
    let ruling = rule request.governance request.target_kind in
    let lack = missing_required_of inv request in
    record {
      profile = request.profile;
      maker_id = request.context.maker_id;
      target_kind = request.target_kind;
      steps = steps_of inv request.profile;
      ruling = ruling;
      ready = ready_of ruling.decision lack result request.profile;
      disposition = disposition_of ruling.decision lack result request.profile;
      missing_required = lack;
      missing_supporting =
          unique [] (missing_of (λ s. s.missing_supporting) (steps_of inv request.profile));
      obligations = request.governance.obligations;
      grounding_result = result;
      recommended_action = recommended result;
      action_digest = digest;
    }

-- `ComplianceTeam.plan`; `none` is the exception of a subject that has no canonical form.
unfoldable pub plan :
    Host → CapabilityInventory → ControlRequest → Option GroundingResult → Option ControlPlan
unfolding plan_with
plan host inv request result =
    Option.map (plan_with inv request result) (digest_hex host (obj (action_subject request)))
