-- ===== src/Service/Dispatcher/Fido2.antt =====
-- internal/service/fido2.go: the FIDO2 flows. A text that the source puts together of an inner
-- error is its fixed part here. A panic of a parser stops the request where it stands.
use go_r2ps_service.Base.{
  String, Bool, true, false, not, ◌&&◌, Option, none, some, List, [], ◌∷◌, ◌++◌, ◌==◌, string_eq,
  bytes_eq, if◌then◌else◌,
}
use go_r2ps_service.Base.Exec.{
  Result, ok, err, ◌>>=◌, ◌>>◌, pure, fail, gets, require, modify, guard,
}
use go_r2ps_service.Base.Int.{◌+ℤ◌, unix}
use go_r2ps_service.Base.Text.{utf8}
use go_r2ps_service.Base.Text.Base64
use go_r2ps_service.Pake.Session.{Session}
use go_r2ps_service.Protocol.{
  Bytes, ServiceRequest, TfaRequestData, get_p_data, server_error, illegal_request_data,
  illegal_state, unauthorized, access_denied, state_challenge, state_register, state_finalize,
  tfa_mode_fido2,
}
use go_r2ps_service.Store.{WebAuthnCredential}
use go_r2ps_service.WebAuthn.AuthData.{PublicKey, AuthenticatorData}
use go_r2ps_service.WebAuthn.Outcome.{Fault, rejected, panicked, exhausted}
use go_r2ps_service.WebAuthn.Token.{ChallengeToken, encrypt, decrypt}
use go_r2ps_service.WebAuthn.Verify.{verify_assertion, verify_registration}
use go_r2ps_service.Service.Dispatcher.{
  Dispatcher, Fido2Handler, Moment, Act, Stop, crashed, refusal, sign_response, tfa, fido_challenge,
  fido_finalize, is_registration, is_authentication, is_change, check_lockout, count_failure,
  count_success, find_session, open_session, in_world, FidoFinalizeRequest,
}

abbrev pub parse_either :
    {S : Type 0} {A : Type 0}
    → (Bytes → Option A)
    → String
    → String
    → String
    → Option Bytes
    → Act S A
parse_either parse p_data raw_msg msg (some bytes) =
    require (parse bytes) (refusal illegal_request_data msg)
parse_either parse p_data raw_msg msg none =
    require (parse (utf8 p_data)) (refusal illegal_request_data raw_msg)

-- A request that is sent as base64 text, or else as JSON, with the message for either failure.
unfoldable pub parse_p_data :
    {S : Type 0} {A : Type 0} → (Bytes → Option A) → TfaRequestData → String → String → Act S A
parse_p_data parse tfa_req raw_msg msg =
    parse_either parse (get_p_data tfa_req) raw_msg msg (Base64.decode (get_p_data tfa_req))

-- How an error of a WebAuthn parser stops a request: a panic passes through.
abbrev pub stop_of : Stop → Fault → Stop
stop_of stop rejected = stop
stop_of stop panicked = crashed
stop_of stop exhausted = crashed

-- The loop over the credentials.
pub find_credential : Bytes → List WebAuthnCredential → Option WebAuthnCredential
find_credential id [] = none
find_credential id (c ∷ cs) = if c.credential_id == id then some c else find_credential id cs

abbrev pub ok_or_empty : {E A : Type 0} → Result E (List A) → List A
ok_or_empty (ok xs) = xs
ok_or_empty (err e) = []

abbrev pub is_bound : ChallengeToken → ServiceRequest → Bool
is_bound token req = token.client_id == req.client_id && token.context == req.context

abbrev pub decode_or_raw : String → Bytes
unfolding Base64.decode
decode_or_raw nonce = elim (Base64.decode nonce) [ some salt ↦ salt | none ↦ utf8 nonce ]

-- "r2ps-2fa_authentication-fido2", the prefix of the key derivation's info.
abbrev pub session_key_tag : Bytes
session_key_tag = utf8 "r2ps-2fa_authentication-fido2"

module _ {S M : Type 0} (d : Dispatcher S M) (f : Fido2Handler S) (t : Moment)
    (req : ServiceRequest) where
  abbrev pub challenge_token : ChallengeToken
  challenge_token = record {
    iat = unix t.now;
    client_id = req.client_id;
    context = req.context;
    challenge = Base64.encode t.challenge_bytes;
  }

  -- `fido2RegChallenge`, and `fido2AuthChallenge` after its lock-out test.
  unfoldable pub reg_challenge : Act S Bytes
  reg_challenge = do
    token ←
        require (encrypt f.token_encryptor t.token_nonce challenge_token)
          (refusal server_error "token encryption failed")
    sign_response d t req (
        fido_challenge (record {
          challenge = Base64.encode t.challenge_bytes;
          token = Base64.encode token;
          user_verification = "required";
        }))

  -- `fido2AuthChallenge`.
  unfoldable pub auth_challenge : Act S Bytes
  auth_challenge = do check_lockout t req; reg_challenge

  unfoldable pub decoded : String → String → Act S Bytes
  decoded text msg = require (Base64.decode text) (refusal illegal_request_data msg)

  -- A token that decrypts, is fresh, and belongs to the client and the context of the request.
  unfoldable pub open_token : String → Act S ChallengeToken
  open_token text = do
    bytes ← decoded text "invalid token encoding"
    token ←
        require (decrypt f.token_encryptor t.now bytes)
          (refusal unauthorized "invalid or expired token")
    guard (is_bound token req) (refusal access_denied "token binding mismatch")
    pure token

  -- The authorization of a change of credentials.
  unfoldable pub authorize_change : TfaRequestData → Act S (Unit {0})
  authorize_change tfa_req = do
    guard (not (tfa_req.authorization == ""))
        (refusal unauthorized "authorization required for credential change")
    found ← gets (find_session t tfa_req.authorization)
    sess ← require found (refusal unauthorized "invalid authorization session")
    guard sess.verified (refusal unauthorized "invalid authorization session")

  abbrev pub authorize_registration : TfaRequestData → Bool → Act S (Unit {0})
  authorize_registration tfa_req true = authorize_change tfa_req
  authorize_registration tfa_req false = pure tt

  -- The challenge to expect: that of the token in the authorization field, or else none at all.
  abbrev pub challenge_of : TfaRequestData → Bool → Act S String
  challenge_of tfa_req true = do token ← open_token tfa_req.authorization; pure token.challenge
  challenge_of tfa_req false = pure ""

  -- `webauthn.VerifyRegistration` and its errors. Without a challenge the source runs it a second
  -- time, with the same arguments.
  abbrev pub registered : Result Fault AuthenticatorData → Act S AuthenticatorData
  registered (ok ad) = pure ad
  registered (err e) =
      fail (stop_of (refusal illegal_request_data "registration verification failed") e)

  abbrev pub marshalled_key : Option PublicKey → Bytes
  marshalled_key none = []
  marshalled_key (some key) = f.marshal_point key

  -- The store's error, as a server error.
  abbrev pub stored : {E : Type 0} → Result E (Unit {0}) → Act S (Unit {0})
  stored (ok _) = pure tt
  stored (err _) = fail (refusal server_error "store credential failed")

  -- `fido2RegRegister`.
  unfoldable pub reg_register : TfaRequestData → Act S Bytes
  reg_register tfa_req = do
    reg ←
        parse_p_data d.codec.parse_fido_register tfa_req "invalid fido2 registration request"
          "malformed registration data"
    attestation_object ← decoded reg.attestation_object "invalid attestation_object encoding"
    client_data ← decoded reg.client_data "invalid client_data encoding"
    authorize_registration tfa_req (is_change req.kind)
    expected ← challenge_of tfa_req (not (tfa_req.authorization == "") && not (is_change req.kind))
    ad ← registered (
        verify_registration f.primitives attestation_object client_data expected f.rp_id
          f.allowed_origins)
    put ← in_world (
        f.store.put_web_authn_credential req.client_id req.context (record {
          credential_id = ad.credential_id;
          public_key = marshalled_key ad.public_key;
          sign_count = ad.sign_count;
          aaguid = ad.aaguid;
          created_at = unix t.now;
        }))
    stored put
    sign_response d t req (tfa (record { p_data = ""; response = ""; message = "success" }))

  -- A failed attempt that is counted.
  unfoldable pub reject_assertion : {A : Type 0} → Stop → Act S A
  reject_assertion stop = do modify (count_failure t req); fail stop

  abbrev pub or_unknown : Option WebAuthnCredential → Act S WebAuthnCredential
  or_unknown none = reject_assertion (refusal unauthorized "credential not found")
  or_unknown (some cred) = pure cred

  unfoldable pub select_from : Bytes → List WebAuthnCredential → Act S WebAuthnCredential
  unfolding find_credential
  select_from id [] = reject_assertion (refusal unauthorized "no credentials registered")
  select_from id (c ∷ cs) = or_unknown (find_credential id (c ∷ cs))

  -- The credential that the assertion names.
  unfoldable pub select_credential : Bytes → Act S WebAuthnCredential
  select_credential id = do
    creds ←
        gets (λ s. ok_or_empty (f.store.get_web_authn_credential req.client_id req.context s.world))
    select_from id creds

  -- `webauthn.VerifyAssertion` and its errors: a panic is not counted as a failure.
  abbrev pub asserted : Result Fault AuthenticatorData → Act S AuthenticatorData
  asserted (ok ad) = pure ad
  asserted (err rejected) = reject_assertion (refusal unauthorized "assertion verification failed")
  asserted (err panicked) = fail crashed
  asserted (err exhausted) = fail crashed

  -- The part of `fido2AuthFinalize` that proves the factor: the token, the credential, the
  -- assertion, and the new count.
  unfoldable pub prove_factor : FidoFinalizeRequest → Act S AuthenticatorData
  prove_factor final_req = do
    token ← open_token final_req.token
    id ← decoded final_req.assertion.credential_id "invalid credential_id encoding"
    ad_bytes ← decoded final_req.assertion.authenticator_data "invalid authenticator_data encoding"
    client_data ← decoded final_req.assertion.client_data "invalid client_data encoding"
    signature ← decoded final_req.assertion.signature "invalid signature encoding"
    cred ← select_credential id
    key ←
        require (f.unmarshal_point cred.public_key)
          (refusal server_error "invalid stored public key")
    ad ← asserted (
        verify_assertion f.primitives
          (record {
            credential_id = id;
            authenticator_data = ad_bytes;
            client_data_json = client_data;
            signature = signature;
          })
          (record {
            credential_id = cred.credential_id;
            public_key = key;
            sign_count = cred.sign_count;
          })
          token.challenge f.rp_id f.allowed_origins)
    counted ←
        in_world (f.store.update_web_authn_sign_count req.client_id req.context id ad.sign_count)
    pure ad

  -- The part that derives the session key: the server's ephemeral point and the key.
  unfoldable pub derive_session_key : FidoFinalizeRequest → Act S (Bytes × Bytes)
  derive_session_key final_req = do
    epub_bytes ← decoded final_req.client_epub "invalid client_epub encoding"
    epub ←
        require (f.unmarshal_point epub_bytes)
          (refusal illegal_request_data "invalid client ephemeral key")
    eph ← require t.ephemeral (refusal server_error "generate ephemeral key failed")
    ikm ← require (eph.ecdh epub) (refusal server_error "ECDH failed")
    key ←
        require
          (f.hkdf ikm (decode_or_raw req.nonce) (
            session_key_tag
            ++ d.sha256
                (utf8 tfa_mode_fido2 ++ epub_bytes ++ eph.epub_bytes ++ utf8 final_req.task)))
          (refusal server_error "key derivation failed")
    pure (eph.epub_bytes, key)

  abbrev pub proved_session : Bytes → String → Session
  proved_session key task = record {
    id = Base64.encode t.session_bytes;
    client_id = req.client_id;
    context = req.context;
    session_key = key;
    client_mac = [];
    expires_at = t.now +ℤ d.session_ttl;
    verified = true;
    task = task;
  }

  -- `fido2AuthFinalize`.
  unfoldable pub auth_finalize : TfaRequestData → Act S Bytes
  auth_finalize tfa_req = do
    final_req ←
        parse_p_data d.codec.parse_fido_finalize tfa_req "invalid finalize request"
          "malformed finalize data"
    ad ← prove_factor final_req
    (epub, key) ← derive_session_key final_req
    open_session (proved_session key final_req.task)
    modify (count_success t req)
    sign_response d t req (
        fido_finalize (record {
          server_epub = Base64.encode epub;
          tfa_session_id = Base64.encode t.session_bytes;
          task = final_req.task;
          session_expiration_time = unix (t.now +ℤ d.session_ttl);
        }))

-- `handleFIDO2`.
unfoldable pub handle_fido2 :
    {S M : Type 0}
    → Dispatcher S M
    → Option (Fido2Handler S)
    → Moment
    → ServiceRequest
    → TfaRequestData
    → Act S Bytes
handle_fido2 d none t req tfa_req = fail (refusal illegal_request_data "fido2 not configured")
handle_fido2 d (some f) t req tfa_req =
    if is_registration req.kind && tfa_req.state == state_challenge
    then reg_challenge d f t req
    else if is_registration req.kind && tfa_req.state == state_register
    then reg_register d f t req tfa_req
    else if is_authentication req.kind && tfa_req.state == state_challenge
    then auth_challenge d f t req
    else if is_authentication req.kind && tfa_req.state == state_finalize
    then auth_finalize d f t req tfa_req
    else fail (refusal illegal_state "invalid fido2 type/state combination")
