-- ===== src/Service/Eudiw/Issue.antt =====
-- The WKA and the WIA handler: they look up the keys of a request, take a status index for the
-- client, and sign.
pub mod Index
pub mod Wka
pub mod Wia
use Prim.Native.String.{◌++◌ as text_append}
use go_r2ps_service.Base.{
  ℕ, ◌*◌, ◌/◌, String, Bool, true, false, not, Option, none, some, List, [], ◌∷◌, ◌==◌, string_eq,
  if◌then◌else◌,
}
use go_r2ps_service.Base.Exec.{Result, ok, err, Exec, ◌>>=◌, ◌>>◌, pure, fail, read, require, guard}
use go_r2ps_service.Base.Int.{ℤ, pos, ◌+ℤ◌, int_eq, unix, second}
use go_r2ps_service.Base.Text.Decimal.{decimal}
use go_r2ps_service.Protocol.{Bytes}
use go_r2ps_service.Crypto.Jwt.{JoseSigner, sign_jwt}
use go_r2ps_service.Store.{PublicKeyInfo, StoreError, Store}
use go_r2ps_service.Service.Handlers.{validate_kid}
use go_r2ps_service.Service.Eudiw.{
  WalletProviderConfig, Failure, refused, crashed, EudiwAttestationRequest, StatusListRef,
  StatusObject, WkaPayload, WiaPayload, EudiwCodec,
}
use go_r2ps_service.Service.Eudiw.Jwk.{Decompress, pub_key_to_jwk}

abbrev pub hour : ℕ
hour = 3600 * second

abbrev pub etsi_version : String
etsi_version = "draft-008"

-- A duration of 0 stands for the default.
abbrev pub or_default : ℤ → ℤ → ℤ
or_default fallback d = if d == pos 0 then fallback else d

-- A call of the store whose error ends the handler.
abbrev pub or_refuse : {S A : Type 0} → String → Result StoreError A × S → Result Failure A × S
or_refuse msg (ok a, s) = (ok a, s)
or_refuse msg (err e, s) = (err (refused msg), s)

-- What becomes of the list for one key: one that cannot be resolved is left out.
abbrev pub attest :
    Result Failure String → Result Failure (List String) → Result Failure (List String)
attest (ok jwk) (ok jwks) = ok (jwk ∷ jwks)
attest (err (refused msg)) rest = rest
attest (err crashed) rest = err crashed
attest (ok jwk) (err e) = err e

abbrev pub has_keys : List String → Bool
has_keys [] = false
has_keys (k ∷ ks) = true

abbrev pub checked_request : Option EudiwAttestationRequest → Result Failure EudiwAttestationRequest
checked_request none = err (refused "parse request")
checked_request (some req) =
    if not (req.ver == etsi_version)
    then err (refused "unsupported ETSI version")
    else if has_keys req.keys_to_attest
    then ok req
    else err (refused "keys_to_attest must not be empty")

abbrev pub first_key : List String → Result Failure String
first_key [] = err crashed
first_key (kid ∷ _) = ok kid

abbrev pub resolved : Result Failure String → Result Failure String
resolved (ok jwk) = ok jwk
resolved (err (refused msg)) = err (refused "resolve cnf key")
resolved (err crashed) = err crashed

module _ {S K I : Type 0} (codec : EudiwCodec I) (signer : JoseSigner K)
    (unmarshal_compressed : Decompress) (cfg : WalletProviderConfig S K I) where
  abbrev pub jwk_of_key : Result StoreError PublicKeyInfo → Result Failure String
  jwk_of_key (ok key) = pub_key_to_jwk unmarshal_compressed key.pub_key key.curve
  jwk_of_key (err e) = err (refused "key not found")

  -- `resolveKeyJWK`.
  unfoldable pub resolve_key_jwk : String → S → Result Failure String
  resolve_key_jwk kid s = jwk_of_key (cfg.store.get_public_key kid s)

  unfoldable pub attest_keys : List String → S → Result Failure (List String)
  attest_keys [] s = ok []
  attest_keys (kid ∷ kids) s =
      let rest = attest_keys kids s in
      if validate_kid kid then attest (resolve_key_jwk kid s) rest else err (refused "invalid kid")

  -- The next index of a category, recorded for the client.
  unfoldable pub take_index : String → String → Exec S Failure ℕ
  take_index client_id category = do
    idx ← λ s. or_refuse "allocate status index" (cfg.store.allocate_index category s)
    (λ s. or_refuse "record WUA" (cfg.store.record_wua client_id category idx s))
    pure idx

  abbrev pub status_object : ℤ → String → ℕ → StatusObject
  status_object now category idx = record {
    status = record {
      idx = idx;
      uri =
          text_append cfg.status_list_base_uri
            (text_append "/" (text_append category (text_append "/" (decimal (idx / 1000)))));
    };
    exp = unix (now +ℤ or_default (pos (31 * 24 * hour)) cfg.status_maintenance_period);
  }

  abbrev pub wka_payload : ℤ → List String → ℕ → WkaPayload
  wka_payload now jwks idx = record {
    iat = unix now;
    exp = unix (now +ℤ or_default (pos (24 * hour)) cfg.wka_ttl);
    attested_keys = jwks;
    key_storage = cfg.key_storage_level;
    user_authentication = cfg.user_auth_level;
    certification = cfg.certification;
    wallet_link = cfg.wallet_link;
    key_storage_status = status_object now "ka" idx;
  }

  abbrev pub wia_payload : ℤ → String → String → ℕ → WiaPayload I
  wia_payload now client_id cnf idx = record {
    iat = unix now;
    exp = unix (now +ℤ or_default (pos (12 * hour)) cfg.wia_ttl);
    sub = client_id;
    wallet_name = cfg.wallet_name;
    wallet_version = cfg.wallet_version;
    wallet_solution_certification_information = cfg.wallet_solution_certification_info;
    wallet_link = cfg.wallet_link;
    client_status = status_object now "wia" idx;
    cnf = cnf;
  }

  -- What both handlers do first.
  unfoldable pub attestation_request : Bytes → Result Failure EudiwAttestationRequest
  attestation_request req_data = checked_request (codec.parse_attestation req_data)

  -- `WKAHandler.Handle`.
  unfoldable pub issue_wka : ℤ → String → Bytes → Exec S Failure Bytes
  unfolding attest_keys
  issue_wka now client_id req_data = do
    req ← read λ s. attestation_request req_data
    jwks ← read (attest_keys req.keys_to_attest)
    guard (has_keys jwks) (refused "no valid keys to attest")
    idx ← take_index client_id "ka"
    payload ← require (codec.marshal_wka (wka_payload now jwks idx)) (refused "marshal WKA payload")
    jwt ←
        require (sign_jwt signer payload cfg.signing_key "keyattestation+jwt" cfg.x5c_chain)
          (refused "sign WKA JWT")
    pure (codec.marshal_wka_response jwt)

  -- `WIAHandler.Handle`.
  unfoldable pub issue_wia : ℤ → String → Bytes → Exec S Failure Bytes
  issue_wia now client_id req_data = do
    req ← read λ s. attestation_request req_data
    kid ← read λ s. first_key req.keys_to_attest
    guard (validate_kid kid) (refused "invalid kid")
    cnf ← read λ s. resolved (resolve_key_jwk kid s)
    idx ← take_index client_id "wia"
    payload ←
        require (codec.marshal_wia (wia_payload now client_id cnf idx))
          (refused "marshal WIA payload")
    jwt ←
        require
          (sign_jwt signer payload cfg.signing_key "oauth-client-attestation+jwt" cfg.x5c_chain)
          (refused "sign WIA JWT")
    pure (codec.marshal_wia_response jwt)
