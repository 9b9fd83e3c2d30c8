-- ===== src/Wire/StoreTests.antt =====
-- The theorems on the stores of keys, revocations and nonces, at small stores.
use a2a_compliance.Nonces.Memory.{seen, has_pair}
use a2a_compliance.Wire.Trust.{authorizes_role, authorizes_type}
use a2a_compliance.Wire.Canonical.{subject, canon}
use a2a_compliance.Wire.Trust.{is_revoked, InMemoryRevocationStore}
use a2a_compliance.Prelude.{
  [], ◌∷◌, ◌≡◌, true, refl, ◌==◌, ◌↔◌, ◌≢◌, sym, ◌∙◌, false, ◌||◌, ◌&&◌, leb,
}
use a2a_compliance.Json.{str, put, obj}
use a2a_compliance.Json.Equality.{same, same_iff}
use a2a_compliance.Nonces.{IsShared}
use a2a_compliance.Nonces.File.{same_marker, file_store-IsShared}
use a2a_compliance.Wire.Trust.{revoke}
use a2a_compliance.Wire.Trust.Laws.{is_revoked-revoke}
use a2a_compliance.Wire.Canonical.{subject_digest}
use a2a_compliance.Nonces.Memory.{MemoryNonces, memory_store}
use a2a_compliance.Wire.Verification.{verify_once}
use a2a_compliance.Nonces.File.{file_store}
use a2a_compliance.Wire.Fixtures.{test_host, test_str, test_permit, test_ports}
use a2a_compliance.Wire.Canonical.Laws.{subject_digest-signed}
use a2a_compliance.Wire.Checks.{
  parse_datetime, stage_receipt_role_findings, trust_findings, human_approval_wire_findings,
  revocation_findings, approver_findings, nonce_replay,
}
use a2a_compliance.Wire.Signing.{verify_signature, pae_bytes}
use a2a_compliance.Nonces.File.Collision.{consume-join}

abbrev one_revoked : InMemoryRevocationStore
one_revoked = ("key", str "k", 5) ∷ []

is_revoked-revoke_example : is_revoked (revoke one_revoked "run" (str "r") 7) "run" (str "r") 8 ≡ (
    is_revoked one_revoked "run" (str "r") 8
    || (("run" == "run" && same (str "r") (str "r")) && leb 7 8))
is_revoked-revoke_example = is_revoked-revoke one_revoked "run" "run" (str "r") (str "r") 7 8

same_iff_example : (same (str "a") (str "b") ≡ true) ↔ (str "a" ≡ str "b")
same_iff_example = same_iff (str "a") (str "b")

file_store-IsShared_example :
    IsShared (file_store (λ c. true) test_str) (same_marker (λ c. true) test_str)
file_store-IsShared_example = file_store-IsShared (λ c. true) test_str

subject_digest-signed_example :
    subject_digest test_host
      (put "signature" (str "s") (put "subject_digest" (str "d") test_permit))
    ≡ subject_digest test_host test_permit
subject_digest-signed_example = subject_digest-signed test_host test_permit (str "d") (str "s")

abbrev spent_store : MemoryNonces
spent_store = record { seen_set = (str "run", str "once") ∷ []; consumed = [] }

replayed_once :
    (verify_once test_host memory_store test_ports
      (obj test_permit)
      "ExecutionPermit"
      spent_store).0
    ≡ nonce_replay ∷ []
unfolding verify_once subject_digest canon subject parse_datetime stage_receipt_role_findings
    trust_findings human_approval_wire_findings revocation_findings authorizes_type authorizes_role
    verify_signature approver_findings pae_bytes seen has_pair same
replayed_once = refl

replayed_errors :
    (verify_once test_host memory_store test_ports
      (obj test_permit)
      "ExecutionPermit"
      spent_store).0
    ≢ []
replayed_errors h = let e = sym replayed_once ∙ h in cc (e)

consume-join_example :
    ((file_store (λ c. true) test_str).consume
      ((file_store (λ c. true) test_str).consume [] (str "a__b") (str "c")).1
      (str "a")
      (str "b__c")).0
    ≡ false
consume-join_example = consume-join (λ c. true) test_str (λ s. refl) [] "a" "b" "c"
