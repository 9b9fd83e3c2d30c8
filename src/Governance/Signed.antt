-- ===== src/Governance/Signed.antt =====
-- governance_block.py: the digest that pins a block, and a policy author's signature over it.
use Prim.Native.String.{compare}
use Prim.Native.Nat.{Ordering}
use mathlib.Core.Option
use a2a_compliance.Prelude.{String, List, ◌∷◌, Option, []}
use a2a_compliance.Json.{Fields, Value, field, end, arr, str, texts, obj}
use a2a_compliance.Governance.{GovernanceBlock}
use a2a_compliance.Host.{Host}
use a2a_compliance.Wire.Canonical.{digest_hex}

-- `sorted(s)` of a set of texts
insert_text : String → List String → List String
insert_text s [] = s ∷ []
insert_text s (t ∷ ts) =
    let more = insert_text s ts in
    elim (compare s t) [ Ordering.lt ↦ s ∷ t ∷ ts | Ordering.eq ↦ t ∷ ts | Ordering.gt ↦ t ∷ more ]

unfoldable pub sorted_set : List String → List String
unfolding insert_text
sorted_set [] = []
sorted_set (s ∷ ss) = insert_text s (sorted_set ss)

-- `{k: d[k] for k in sorted(d)}`
insert_field : String → Value → Fields → Fields
insert_field k v end = field k v end
insert_field k v (field j w d) =
    let more = insert_field k v d in
    elim (compare k j) [ Ordering.gt ↦ field j w more | _ ↦ field k v (field j w d) ]

unfoldable pub sorted_fields : Fields → Fields
unfolding insert_field
sorted_fields end = end
sorted_fields (field k v d) = insert_field k v (sorted_fields d)

unfoldable pub to_dict : GovernanceBlock → Fields
unfolding sorted_set sorted_fields
to_dict b = field "grade" b.grade (
    field "actions" (arr (texts (sorted_set b.action_kinds))) (
      field "reserved" (obj (sorted_fields b.reserved)) (
        field "prohibited" (arr (texts (sorted_set b.prohibited)))
          (field "obligations" (arr (texts b.obligations)) (field "budget" (obj b.budget) end)))))

pub record SignedGovernanceBlock : Type 0 where
  pub block : GovernanceBlock
  pub digest : String
  pub signer_key_id : String
  pub signer_identity : String
  pub signature : String

-- `SignedGovernanceBlock.subject`
unfoldable pub subject_fields : String → String → String → Fields
subject_fields digest key_id identity =
    field "governance_block_digest" (str digest)
      (field "signer_key_id" (str key_id) (field "signer_identity" (str identity) end))

module _ (host : Host) where
  -- `GovernanceBlock.digest`
  unfoldable pub block_digest : GovernanceBlock → Option String
  block_digest b = digest_hex host (obj (to_dict b))

  unfoldable pub sign_governance_block :
      GovernanceBlock → String → String → (Fields → String) → Option SignedGovernanceBlock
  unfolding subject_fields
  sign_governance_block b key_id identity sign =
      Option.map
        (λ digest. record {
          block = b;
          digest = digest;
          signer_key_id = key_id;
          signer_identity = identity;
          signature = sign (subject_fields digest key_id identity);
        })
        (block_digest b)
