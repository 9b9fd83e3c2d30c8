-- ===== src/Wire/Signing.antt =====
-- wire/signing.py: the DSSE encoding that is signed, signatures, and proofs of possession.
use Prim.Native.String.{len, count}
use mathlib.Core.Option
use a2a_compliance.Prelude.{
  String, Option, Bool, ◌∷◌, ◌==◌, false, List, some, [], none, if◌then◌else◌, not, ◌&&◌, ◌-◌, ◌%◌,
}
use a2a_compliance.Json.{Fields, Value, obj, as_str, field, get, end, str, is_str, as_dict}
use a2a_compliance.Host.{Host, Bytes}
use a2a_compliance.Text.{concat, show, rstrip, repeat}
use a2a_compliance.Wire.Canonical.{canon, subject}

abbrev pub dsse_payload_type : String
dsse_payload_type = "application/vnd.a2a-compliance.subject+json"

-- `_pae`
unfoldable pub pae : String → String → String
pae payload_type payload = concat (
    "DSSEv1 "
    ∷ show (len payload_type)
    ∷ " "
    ∷ payload_type
    ∷ " "
    ∷ show (len payload)
    ∷ " "
    ∷ payload
    ∷ [])

-- `none` is the `ValueError` of the canonical text.
unfoldable pub pae_bytes : Fields → Option String
pae_bytes d = Option.map (pae dsse_payload_type) (canon (obj (subject d)))

unfoldable pub pop_pae_bytes : Value → Value → Option String
pop_pae_bytes permit_id nonce =
    Option.map (pae dsse_payload_type)
      (canon (obj (field "permit_id" permit_id (field "nonce" nonce end))))

pub data SignatureError : Type 0 where
  signature_empty signature_not_base64 signature_not_verified : SignatureError

pub data ProofError : Type 0 where
  jwk_missing jwk_invalid proof_signature_empty key_mismatch x_not_base64url
        proof_signature_not_base64 proof_not_verified :
      ProofError

module _ (host : Host) where
  -- `Ed25519PublicKey.from_public_bytes(key).verify(signature, message)`, caught
  abbrev checked : Bytes → Bytes → Option String → Bool
  checked key signature none = false
  checked key signature (some message) = host.ed25519_verify key signature message

  signature_errors : Option Bytes → Bytes → Fields → List SignatureError
  signature_errors none public_key d = signature_not_base64 ∷ []
  signature_errors (some signature) public_key d =
      if checked public_key signature (pae_bytes d) then [] else signature_not_verified ∷ []

  unfoldable pub verify_signature : Fields → Bytes → List SignatureError
  unfolding signature_errors
  verify_signature d public_key = elim (as_str (get "signature" d)) [
    | none ↦ signature_empty ∷ []
    | some text ↦
        if text == ""
        then signature_empty ∷ []
        else signature_errors (host.b64decode text) public_key d
  ]

  -- `_b64url_encode`, `_b64url_decode`
  unfoldable pub b64url_encode : Bytes → String
  b64url_encode data_bytes = rstrip b'=' (host.urlsafe_b64encode data_bytes)

  unfoldable pub b64url_decode : String → Option Bytes
  b64url_decode text =
      host.urlsafe_b64decode (concat (text ∷ repeat "=" ((4 - count text % 4) % 4) ∷ []))

  unfoldable pub okp_jwk : Bytes → Fields
  unfolding b64url_encode
  okp_jwk public_key =
      field "kty" (str "OKP")
        (field "crv" (str "Ed25519") (field "x" (str (b64url_encode public_key)) end))

  -- `jwk_thumbprint`: of the three required members, whatever else the key carries
  unfoldable pub jwk_thumbprint : Fields → Option String
  unfolding b64url_encode
  jwk_thumbprint jwk =
      Option.map (λ t. b64url_encode (host.sha256 t))
        (canon (
          obj (
            field "crv" (get "crv" jwk)
              (field "kty" (get "kty" jwk) (field "x" (get "x" jwk) end)))))

  unfoldable pub cnf_jkt_for_public_key : Bytes → Option String
  unfolding okp_jwk jwk_thumbprint
  cnf_jkt_for_public_key public_key = jwk_thumbprint (okp_jwk public_key)

  abbrev is_nonempty_str : Value → Bool
  is_nonempty_str v = elim (as_str v) [ none ↦ false | some s ↦ not (s == "") ]

  abbrev is_ed25519_jwk : Fields → Bool
  is_ed25519_jwk jwk =
      (is_str (get "kty" jwk) "OKP" && is_str (get "crv" jwk) "Ed25519")
      && is_nonempty_str (get "x" jwk)

  abbrev is_thumbprint : Option String → String → Bool
  is_thumbprint none expected_jkt = false
  is_thumbprint (some t) expected_jkt = t == expected_jkt

  abbrev text_or_empty : Option String → String
  text_or_empty none = ""
  text_or_empty (some s) = s

  proof_signature_errors : Option Bytes → Option Bytes → Option String → List ProofError
  proof_signature_errors none signature message = x_not_base64url ∷ []
  proof_signature_errors (some key) none message = proof_signature_not_base64 ∷ []
  proof_signature_errors (some key) (some signature) message =
      if checked key signature message then [] else proof_not_verified ∷ []

  -- `verify_proof_of_possession` of a proof that is a dict
  unfoldable pub verify_proof_of_possession : Fields → Value → Value → String → List ProofError
  unfolding proof_signature_errors
  verify_proof_of_possession proof permit_id nonce expected_jkt = elim (as_dict (get "jwk" proof)) [
    | none ↦ jwk_missing ∷ []
    | some jwk ↦
        let x = text_or_empty (as_str (get "x" jwk)) in
        let signature = text_or_empty (as_str (get "signature" proof)) in
        if not (is_ed25519_jwk jwk)
        then jwk_invalid ∷ []
        else if not (is_nonempty_str (get "signature" proof))
        then proof_signature_empty ∷ []
        else if not (is_thumbprint (jwk_thumbprint jwk) expected_jkt)
        then key_mismatch ∷ []
        else proof_signature_errors (b64url_decode x) (host.b64decode signature)
            (pop_pae_bytes permit_id nonce)
  ]
