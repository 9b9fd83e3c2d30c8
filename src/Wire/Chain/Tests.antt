-- ===== src/Wire/Chain/Tests.antt =====
-- Instances of the theorems on chains, over a host without collisions.
use a2a_compliance.Json.Equality.{same}
use a2a_compliance.Text.{dumps}
use a2a_compliance.Wire.Canonical.{sort_items}
use a2a_compliance.Json.{put, Fields, obj, str, field, Value, end, arr, cons, nil}
use a2a_compliance.Host.{CollisionFree, Host}
use a2a_compliance.Wire.Fixtures.{test_host, test_ports, signed_object, test_permit}
use a2a_compliance.Wire.Chain.{
  verify_chain, audit_chain_verify, link_all, verify_by, dict_errors, link_errors, rejection_of,
  digest_value,
}
use a2a_compliance.Wire.Chain.Evidence.{verify_chain-canon}
use a2a_compliance.Wire.Chain.Audit.{IsAudited, audit_chain_verify-IsAudited}
use a2a_compliance.Wire.Canonical.{canon, subject, subject_digest, digest_hex}
use a2a_compliance.Prelude.{List, String, ◌≡◌, ◌∷◌, none, [], some, refl}
use a2a_compliance.Wire.Verification.{verify}
use a2a_compliance.Wire.Checks.{
  parse_datetime, replace_z, trust_findings, revocation_findings, human_approval_wire_findings,
  stage_receipt_role_findings,
}
use a2a_compliance.Wire.Trust.{authorizes_type, authorizes_role}
use a2a_compliance.Wire.Signing.{verify_signature, pae_bytes}

-- SHA-256 that answers with the text itself has no collisions.
abbrev plain_host : Host
plain_host = record test_host { sha256_hex = λ s. s }

plain_host_free : CollisionFree plain_host
plain_host_free s t h = h

abbrev plain_digest : Fields → String
plain_digest d = elim (canon (obj (subject d))) [ none ↦ "" | some t ↦ t ]

abbrev digested : Fields → Fields
unfolding canon subject
digested d = put "subject_digest" (str (plain_digest d)) d

abbrev first_receipt : Fields
unfolding canon subject
first_receipt = digested (signed_object "ToolReceipt" (field "tool" (str "mail") end))

abbrev second_receipt : Fields
unfolding canon subject
second_receipt =
    digested
      (signed_object "ToolReceipt" (field "prev_digest" (str (plain_digest first_receipt)) end))

abbrev two : List Value
two = obj first_receipt ∷ obj second_receipt ∷ []

two_accepted :
    (verify_chain plain_host {S = Unit {0}} none test_ports "ToolReceipt" none two tt).0 ≡ []
unfolding verify_chain link_all verify_by dict_errors link_errors rejection_of digest_value verify
    subject_digest digest_hex canon subject parse_datetime replace_z trust_findings
    revocation_findings authorizes_type authorizes_role verify_signature pae_bytes
    human_approval_wire_findings stage_receipt_role_findings sort_items dumps same first_receipt
    second_receipt digested
two_accepted = refl

verify_chain-canon_example :
    canon (obj (subject first_receipt)) ≡ canon (obj (subject first_receipt))
verify_chain-canon_example =
    verify_chain-canon plain_host plain_host_free test_ports test_ports "ToolReceipt" none none []
      [] [] [] first_receipt first_receipt second_receipt two_accepted two_accepted

-- Over the host of the other tests, every digest is "digest".
abbrev tool_receipt : Fields
tool_receipt = signed_object "ToolReceipt" (field "tool" (str "mail") end)

abbrev reconciliation : Fields
reconciliation = signed_object "Reconciliation" end

abbrev certificate : Fields
certificate = signed_object "OversightCertificate" (
    field "permit_digest" (str "digest") (
      field "reconciliation_digest" (str "digest")
        (field "tool_receipt_digests" (arr (cons (str "digest") nil)) end)))

run_accepted :
    audit_chain_verify test_host test_ports
      (obj test_permit)
      (obj tool_receipt ∷ [])
      (obj reconciliation)
      (obj certificate)
      []
    ≡ []
unfolding audit_chain_verify verify_chain link_all verify_by dict_errors link_errors rejection_of
    digest_value verify subject_digest digest_hex canon subject parse_datetime replace_z
    trust_findings revocation_findings authorizes_type authorizes_role verify_signature pae_bytes
    human_approval_wire_findings stage_receipt_role_findings same
run_accepted = refl

audit_chain_verify-IsAudited_example :
    IsAudited test_host test_ports
      (obj test_permit)
      (obj tool_receipt ∷ [])
      (obj reconciliation)
      (obj certificate)
      []
audit_chain_verify-IsAudited_example =
    audit_chain_verify-IsAudited test_host test_ports (obj test_permit) (obj tool_receipt ∷ [])
      (obj reconciliation) (obj certificate) [] run_accepted
