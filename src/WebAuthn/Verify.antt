-- ===== src/WebAuthn/Verify.antt =====
-- internal/webauthn/verify.go: the two ceremonies. JSON, SHA-256 and ECDSA verification (with the
-- DER form of its signature) are parameters.
pub mod Assertion
use go_r2ps_service.Base.{
  ℕ, Bool, true, false, not, ◌&&◌, ◌||◌, Option, none, some, List, ◌++◌, ltb, leb, nat_beq, any,
  if◌then◌else◌, ◌==◌, string_eq, String, is_some,
}
use go_r2ps_service.Base.Exec.{ok}
use go_r2ps_service.Protocol.{Bytes}
use go_r2ps_service.WebAuthn.Outcome.{Outcome, rejected, ◌>>=◌, ◌>>◌, ensure, some_or}
use go_r2ps_service.WebAuthn.Cbor.{extract_auth_data}
use go_r2ps_service.WebAuthn.AuthData.{
  PublicKey, AuthenticatorData, flag_up, flag_uv, flag_at, has_flag, parse_authenticator_data,
  verify_rp_id_hash,
}

pub record ClientData : Type 0 where
  pub kind : String
  pub challenge : String
  pub origin : String
  pub cross_origin : Bool

pub record Credential : Type 0 where
  pub credential_id : Bytes
  pub public_key : PublicKey
  pub sign_count : ℕ

pub record AssertionData : Type 0 where
  pub credential_id : Bytes
  pub authenticator_data : Bytes
  pub client_data_json : Bytes
  pub signature : Bytes

-- What the two ceremonies use of encoding/json and the crypto packages.
pub record Primitives : Type 0 where
  pub parse_client_data : Bytes → Option ClientData
  pub sha256 : Bytes → Bytes
  pub is_on_curve : ℕ → ℕ → Bool
  pub ecdsa_verify : PublicKey → Bytes → Bytes → Bool

abbrev pub type_get : String
type_get = "webauthn.get"

abbrev pub type_create : String
type_create = "webauthn.create"

-- `authData.SignCount != 0 || credential.SignCount != 0` asks for a greater count.
abbrev pub is_count_fresh : ℕ → ℕ → Bool
is_count_fresh given stored =
    if not (nat_beq given 0) || not (nat_beq stored 0) then ltb stored given else true

module _ (p : Primitives) where
  -- What is signed: SHA-256 of the authenticator data followed by the hash of the client data.
  abbrev pub signed_hash : AssertionData → Bytes
  signed_hash a = p.sha256 (a.authenticator_data ++ p.sha256 a.client_data_json)

  -- `VerifyAssertion`.
  unfoldable pub verify_assertion :
      AssertionData → Credential → String → String → List String → Outcome AuthenticatorData
  verify_assertion assertion credential expected_challenge rp_id allowed_origins = do
    client_data ← some_or rejected (p.parse_client_data assertion.client_data_json)
    ensure (client_data.kind == type_get)
    ensure (client_data.challenge == expected_challenge)
    ensure (any (λ o. client_data.origin == o) allowed_origins)
    ad ← parse_authenticator_data p.is_on_curve assertion.authenticator_data
    ensure (verify_rp_id_hash p.sha256 ad rp_id)
    ensure (has_flag ad.flags flag_up)
    ensure (has_flag ad.flags flag_uv)
    ensure (p.ecdsa_verify credential.public_key (signed_hash assertion) assertion.signature)
    ensure (is_count_fresh ad.sign_count credential.sign_count)
    ok ad

  -- `VerifyRegistration`.
  unfoldable pub verify_registration :
      Bytes → Bytes → String → String → List String → Outcome AuthenticatorData
  verify_registration attestation_object client_data_json expected_challenge rp_id allowed_origins =
      do
        client_data ← some_or rejected (p.parse_client_data client_data_json)
        ensure (client_data.kind == type_create)
        ensure (client_data.challenge == expected_challenge)
        ensure (any (λ o. client_data.origin == o) allowed_origins)
        bytes ← extract_auth_data attestation_object
        ad ← parse_authenticator_data p.is_on_curve bytes
        ensure (verify_rp_id_hash p.sha256 ad rp_id)
        ensure (has_flag ad.flags flag_up)
        ensure (has_flag ad.flags flag_uv)
        ensure (has_flag ad.flags flag_at)
        ensure (is_some ad.public_key)
        ok ad
