-- ===== src/Channel/Approval.antt =====
-- channel.py: `_verify_halt_approval`.
use a2a_compliance.Wire.Verification.{approved}
use a2a_compliance.Channel.{
  HaltDenial, other_digest, verification_failed, already_used, no_receipt, approver_is_maker,
  unknown_scope, no_run_or_nonce, next_action_used,
}
use a2a_compliance.Prelude.{
  List, String, ◌∷◌, Bool, if◌then◌else◌, Option, [], not, some, ◌==◌, none, ◌||◌, ◌&&◌,
}
use a2a_compliance.Json.{Fields, is_str, get, str, obj, truthy}
use a2a_compliance.Wire.Verification.{HumanApproval, rejected, verify_human_approval}
use a2a_compliance.Nonces.{NonceStore}
use a2a_compliance.Host.{Host}
use a2a_compliance.Wire.Checks.{Ports}
use a2a_compliance.Wire.Trust.{TrustStore, member}
use a2a_compliance.Authority.{human_role}

abbrev pub halt_approval_scopes : List String
halt_approval_scopes = "next-action" ∷ "session" ∷ []

abbrev pub next_action_scope_marker : String
next_action_scope_marker = "__halt:next-action-scope-used__"

abbrev pub is_next_action : Fields → Bool
is_next_action d = is_str (get "scope" d) "next-action"

-- `result.approver_identity == maker` and the checks behind it. `used` and `spent` are what the
-- nonce store answers for the receipt's pair and for the marker of its run.
unfoldable pub receipt_denial : String → Fields → String → String → Bool → Bool → Option HaltDenial
receipt_denial identity d digest maker used spent =
    if not (is_str (get "permitted_action_digest" d) digest)
    then some other_digest
    else if identity == maker
    then some approver_is_maker
    else if not (member halt_approval_scopes (get "scope" d))
    then some (unknown_scope (get "scope" d))
    else if not (truthy (get "run_id" d)) || not (truthy (get "nonce" d))
    then some no_run_or_nonce
    else if used
    then some already_used
    else if is_next_action d && spent
    then some next_action_used
    else none

unfoldable pub approval_denial :
    HumanApproval → Fields → String → String → Bool → Bool → Option HaltDenial
approval_denial (rejected errors) d digest maker used spent = some (verification_failed errors)
approval_denial (approved identity) d digest maker used spent =
    receipt_denial identity d digest maker used spent

module _ {S : Type 0} (store : NonceStore S) where
  abbrev consumed_pair : Fields → S → Bool × S
  consumed_pair d s = store.consume s (get "run_id" d) (get "nonce" d)

  -- The mark that a `next-action` approval leaves on its run.
  unfoldable pub mark : Fields → S → S
  mark d s =
      if is_next_action d
      then store.record_nonce s (get "run_id" d) (str next_action_scope_marker)
      else s

  -- The pair is consumed only behind every other check.
  unfoldable pub spend : Fields → S → Option HaltDenial → Option HaltDenial × S
  unfolding mark
  spend d s (some r) = (some r, s)
  spend d s none =
      if (consumed_pair d s).0
      then (none, mark d (consumed_pair d s).1)
      else (some already_used, (consumed_pair d s).1)

  module _ (host : Host) where
    unfoldable pub verify_halt_approval :
        Ports → TrustStore → String → Option Fields → String → String → S → Option HaltDenial × S
    unfolding spend
    verify_halt_approval ports trust sender none digest maker s = (some no_receipt, s)
    verify_halt_approval ports trust sender (some d) digest maker s = spend d s (
        approval_denial (verify_human_approval host ports trust (some sender) human_role (obj d)) d
          digest maker (store.seen s (get "run_id" d) (get "nonce" d))
          (store.seen s (get "run_id" d) (str next_action_scope_marker)))
