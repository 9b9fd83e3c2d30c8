-- ===== src/Wire/Reconciliation.antt =====
-- wire/reconciliation.py: the signed comparison of the effects that receipts report with the ones
-- that the host observed.
pub mod Reconcile
pub mod Laws
pub mod Clean
pub mod Tests
use a2a_compliance.Json.Equality.{same}
use a2a_compliance.Json.{
  Fields, Value, end, as_str, get_default, get, null, str, obj, is_null, field, is_str, has,
}
use a2a_compliance.Wire.Checks.{VerificationError, Ports}
use a2a_compliance.Wire.Trust.{TrustStore, RevocationStore}
use a2a_compliance.Prelude.{
  Option, String, List, some, none, [], Bool, ◌∷◌, if◌then◌else◌, false, ◌&&◌, ◌++◌, not, ℕ,
  is_empty, ◌||◌,
}
use a2a_compliance.Host.{Host, DateTime}
use a2a_compliance.Wire.Verification.{verify}
use a2a_compliance.Wire.Canonical.{subject_digest, digest_hex}
use a2a_compliance.Governance.Signed.{sorted_set}
use a2a_compliance.Wire.Admission.Permit.{Issuer}

-- `ObservedEffects`: the effects by the digest of their receipt, and those that no receipt explains.
pub record ObservedEffects : Type 0 where
  pub effects : Fields
  pub unmatched : List Value

-- The messages that the object carries, with the values that they print.
pub data InvalidReceipt : Type 0 where
  tool_receipt_not_object : InvalidReceipt
  receipt_rejected : Value → List VerificationError → InvalidReceipt
  receipt_not_bound : Value → InvalidReceipt

pub data Residual : Type 0 where
  missing_effect : Value → Option String → Residual
  effect_mismatch intended_mismatch : Value → Residual
  unexpected_effect : Option String → Residual
  missing_receipt : String → Residual
  nothing_dispatched : Residual

pub data ReconcileReason : Type 0 where
  permit_not_object : ReconcileReason
  not_verified : VerificationError → ReconcileReason
  not_enforcement : Value → ReconcileReason

-- The keyword arguments. `invalid_text` and `residual_text` word the messages, and `reason_text`
-- the field `reason` from whether the comparison is clean and the messages.
pub record ReconcileArguments : Type 0 where
  pub trust_store : TrustStore
  pub revocation_store : Option RevocationStore
  pub signer : Issuer
  pub run_id : String
  pub nonce : String
  pub intended_effects : Option Fields
  pub now : Option DateTime
  pub clock : ℕ
  pub schema_version : String
  pub reconciliation_ttl : ℕ
  pub invalid_text : InvalidReceipt → String
  pub residual_text : Residual → String
  pub reason_text : Bool → List Residual → List InvalidReceipt → String

abbrev pub reconcile_ports : ReconcileArguments → Ports
reconcile_ports args = record {
  trust_store = some args.trust_store;
  revocation_store = args.revocation_store;
  now = args.now;
  clock = args.clock;
}

-- `dict(intended_effects or {})`, and the two parts of an observation that may be missing
abbrev pub intended_map : ReconcileArguments → Fields
intended_map args = elim args.intended_effects [ none ↦ end | some d ↦ d ]

abbrev pub observed_map : Option ObservedEffects → Fields
observed_map none = end
observed_map (some o) = o.effects

abbrev pub unmatched_of : Option ObservedEffects → List Value
unmatched_of none = []
unmatched_of (some o) = o.unmatched

-- `digest == value` for a digest that did not raise
abbrev pub is_digest : Option String → Value → Bool
is_digest none v = false
is_digest (some s) v = is_str v s

-- `d.get(k)` and `k in d` for a key that may be no text
abbrev pub get_value : Value → Fields → Value
get_value k d = elim (as_str k) [ none ↦ null | some s ↦ get s d ]

abbrev pub has_value : Value → Fields → Bool
has_value k d = elim (as_str k) [ none ↦ false | some s ↦ has s d ]

module _ (host : Host) (ports : Ports) (action_digest : Value) where
  abbrev pub label_of : Fields → Value
  label_of d = get_default "tool" (str "?") d

  unfoldable pub receipt_invalid : Fields → Option InvalidReceipt
  receipt_invalid d =
      let errors = verify host ports (obj d) "ToolReceipt" in
      if not (is_empty errors)
      then some (receipt_rejected (label_of d) errors)
      else if not (same (get "action_digest" d) action_digest)
      then some (receipt_not_bound (label_of d))
      else none

  -- The loop over the receipts: the messages, and the receipts that verified.
  unfoldable pub invalid_receipts : List Value → List InvalidReceipt
  invalid_receipts [] = []
  invalid_receipts (obj d ∷ vs) =
      let rest = invalid_receipts vs in elim (receipt_invalid d) [ none ↦ rest | some r ↦ r ∷ rest ]
  invalid_receipts (_ ∷ vs) = tool_receipt_not_object ∷ invalid_receipts vs

  unfoldable pub verified_receipts : List Value → List Fields
  verified_receipts [] = []
  verified_receipts (obj d ∷ vs) =
      let rest = verified_receipts vs in
      elim (receipt_invalid d) [ none ↦ d ∷ rest | some r ↦ rest ]
  verified_receipts (_ ∷ vs) = verified_receipts vs

module _ (host : Host) (observed intended : Fields) where
  -- What the host saw for a receipt, by the digest of its subject.
  abbrev pub seen_effect : Fields → Value
  seen_effect d = elim (subject_digest host d) [ none ↦ null | some s ↦ get s observed ]

  abbrev pub reported : Fields → Value
  reported d = get "effect_digest" d

  unfoldable pub observed_residuals : Fields → List Residual
  observed_residuals d =
      if is_null (seen_effect d)
      then missing_effect (get "tool" d) (subject_digest host d) ∷ []
      else if not (is_digest (digest_hex host (seen_effect d)) (reported d))
      then effect_mismatch (get "tool" d) ∷ []
      else []

  unfoldable pub intended_residuals : Fields → List Residual
  intended_residuals d =
      if has_value (get "tool" d) intended
        && not (is_digest (digest_hex host (get_value (get "tool" d) intended)) (reported d))
      then intended_mismatch (get "tool" d) ∷ []
      else []

  unfoldable pub receipts_residuals : List Fields → List Residual
  receipts_residuals [] = []
  receipts_residuals (d ∷ ds) =
      observed_residuals d ++ (intended_residuals d ++ receipts_residuals ds)

-- `sorted(set(intended_map) - delivered_tools)`
keys_of : Fields → List String
keys_of end = []
keys_of (field k v d) = k ∷ keys_of d

unfoldable pub is_delivered : String → List Fields → Bool
is_delivered tool [] = false
is_delivered tool (d ∷ ds) = is_str (get "tool" d) tool || is_delivered tool ds

undelivered : List Fields → List String → List String
unfolding is_delivered
undelivered ds [] = []
undelivered ds (t ∷ ts) =
    let rest = undelivered ds ts in if is_delivered t ds then rest else t ∷ rest

unfoldable pub missing_tools : List Fields → Fields → List String
unfolding keys_of undelivered
missing_tools ds intended = sorted_set (undelivered ds (keys_of intended))
