-- ===== src/Wire/Checks.antt =====
-- wire/verification.py: the messages of the verifier, and its checks one by one.
pub mod Laws
use mathlib.Core.Option
use a2a_compliance.Prelude.{
  List, String, Option, ℕ, ◌∷◌, if◌then◌else◌, Bool, [], ◌==◌, map, ◌&&◌, not, ◌++◌, is_none, none,
  some, false,
}
use a2a_compliance.Host.{Host, DateTime, as_utc}
use a2a_compliance.Lifecycle.Owners.{tool_owner}
use a2a_compliance.Json.{Value, Fields, as_str, get, get_in, truthy, str, is_str}
use a2a_compliance.Wire.Trust.{
  RevocationStore, TrustStore, TrustBinding, authorizes_type, authorizes_role, is_identity,
}
use a2a_compliance.Wire.Signing.{SignatureError, verify_signature}
use a2a_compliance.Text.{remove_prefix, is_code}
use text.Mathlib.Text.{starts_with}

-- `ALL_WIRE_TYPES`
abbrev pub all_wire_types : List String
all_wire_types =
    "ControlRequest" ∷ "ContextManifest" ∷ "StageReceipt" ∷ "HumanApprovalReceipt"
    ∷ "ExecutionPermit" ∷ "ToolReceipt" ∷ "Reconciliation" ∷ "Revocation"
    ∷ "ObligationDischargeReceipt" ∷ "OversightCertificate" ∷ []

-- The messages of the verifier, with the values that they print.
pub data VerificationError : Type 0 where
  unknown_type : String → VerificationError
  not_an_object : VerificationError
  type_mismatch : String → Value → VerificationError
  schema_error : String → VerificationError
  cannot_canonicalise : VerificationError
  digest_mismatch : VerificationError
  expiry_unparseable : VerificationError
  expired : VerificationError
  wrong_role : String → String → Value → VerificationError
  nonce_replay : VerificationError
  key_id_empty : VerificationError
  unknown_key_id : Value → VerificationError
  key_not_bound_to_type : Value → String → VerificationError
  key_not_bound_to_role : Value → Value → VerificationError
  key_not_bound_to_issuer : Value → Value → VerificationError
  bad_signature : SignatureError → VerificationError
  key_not_human : Value → VerificationError
  key_without_identity : Value → VerificationError
  approver_not_bound : Value → Option String → VerificationError
  self_approval : VerificationError
  revoked : String → Value → ℕ → VerificationError

-- The keyword arguments of `verify` and its callers, and what `datetime.now` answers.
pub record Ports : Type 0 where
  pub trust_store : Option TrustStore
  pub revocation_store : Option RevocationStore
  pub now : Option DateTime
  pub clock : ℕ

-- `reference`
abbrev pub reference : Ports → ℕ
reference p = elim p.now [ none ↦ p.clock | some t ↦ as_utc t ]

-- `value[:-1] + "+00:00" if value.endswith("Z") else value`
unfoldable pub replace_z : String → String
replace_z String.[] = ""
replace_z (String.◌∷◌ c s) =
    let rest = replace_z s in if s == "" && is_code c b'Z' then "+00:00" else String.◌∷◌ c rest

module _ (host : Host) where
  -- `_parse_datetime`
  unfoldable pub parse_datetime : Value → Option ℕ
  unfolding replace_z
  parse_datetime v = elim (as_str v) [
    | none ↦ none
    | some text ↦ Option.map as_utc (host.fromisoformat (replace_z text))
  ]

-- `_stage_receipt_role_findings`
unfoldable pub stage_receipt_role_findings : Fields → List VerificationError
unfolding tool_owner remove_prefix
stage_receipt_role_findings d = elim (as_str (get "capability" d)) [
  | none ↦ []
  | some capability ↦
      let key = remove_prefix "tool:" capability in
      let owned : List VerificationError = elim (tool_owner key) [
        | none ↦ []
        | some owner ↦
            if is_str (get "role" d) owner then [] else wrong_role key owner (get "role" d) ∷ []
      ] in
      if starts_with capability "tool:" then owned else []
]

-- `isinstance(key_id, str) and key_id`
abbrev pub is_nonempty_str : Value → Bool
is_nonempty_str v = elim (as_str v) [ none ↦ false | some s ↦ not (s == "") ]

module _ (host : Host) where
  binding_findings : Fields → String → Value → TrustBinding → List VerificationError
  binding_findings d obj_type key_id binding =
      let signed = map bad_signature (verify_signature host d binding.public_key) in
      if not (authorizes_type binding obj_type)
      then key_not_bound_to_type key_id obj_type ∷ []
      else if obj_type == "StageReceipt" && not (authorizes_role binding (get "role" d))
      then key_not_bound_to_role key_id (get "role" d) ∷ []
      else if obj_type == "StageReceipt" && not (is_identity binding (get "issuer" d))
      then key_not_bound_to_issuer key_id (get "issuer" d) ∷ []
      else signed

  -- `_trust_findings`
  unfoldable pub trust_findings : Fields → String → TrustStore → List VerificationError
  unfolding binding_findings
  trust_findings d obj_type trust_store =
      let key_id = get "key_id" d in
      let resolved : List VerificationError = elim (trust_store key_id) [
        | none ↦ unknown_key_id key_id ∷ []
        | some binding ↦ binding_findings d obj_type key_id binding
      ] in
      if not (is_nonempty_str key_id) then key_id_empty ∷ [] else resolved

-- The approver's findings about a resolved key, as `_human_approval_wire_findings` and
-- `verify_human_approval` both test them.
unfoldable pub approver_findings : Fields → String → Value → TrustBinding → List VerificationError
approver_findings d human_role key_id binding =
    let approver_id = get_in "id" (get "approver" d) in
    if not (authorizes_role binding (str human_role))
    then key_not_human key_id ∷ []
    else if is_none binding.identity
    then key_without_identity key_id ∷ []
    else if not (is_identity binding approver_id)
    then approver_not_bound approver_id binding.identity ∷ []
    else []

-- `_human_approval_wire_findings`
unfoldable pub human_approval_wire_findings : Fields → TrustStore → String → List VerificationError
unfolding approver_findings
human_approval_wire_findings d trust_store human_role =
    let key_id = get "key_id" d in
    let resolved : List VerificationError = elim (trust_store key_id) [
      | none ↦ []
      | some binding ↦ approver_findings d human_role key_id binding
    ] in
    if not (is_nonempty_str key_id) then [] else resolved

revoked_finding : RevocationStore → ℕ → String → Value → List VerificationError
revoked_finding store at revoked_type v = elim (as_str v) [
  | none ↦ []
  | some s ↦ if store revoked_type v at then revoked revoked_type v at ∷ [] else []
]

-- `obj.get("action_digest") or obj.get("permitted_action_digest")`
abbrev pub permit_digest : Fields → Value
permit_digest d =
    if truthy (get "action_digest" d)
    then get "action_digest" d
    else get "permitted_action_digest" d

-- `_revocation_findings`
unfoldable pub revocation_findings : Fields → String → RevocationStore → ℕ → List VerificationError
unfolding revoked_finding
revocation_findings d obj_type store at =
    revoked_finding store at "key" (get "key_id" d)
    ++ (revoked_finding store at "run" (get "run_id" d)
        ++ (revoked_finding store at "permit" (permit_digest d)
            ++ (if obj_type == "ContextManifest"
                then revoked_finding store at "policy" (get "policy_bundle_digest" d)
                else [])))
