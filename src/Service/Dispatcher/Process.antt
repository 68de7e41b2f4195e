-- ===== src/Service/Dispatcher/Process.antt =====
-- internal/service/dispatcher.go: `Process`, the way of a request from its bytes to its operation.
use go_r2ps_service.Base.{
  String, Bool, true, false, not, ◌&&◌, ◌||◌, Option, none, some, ◌==◌, string_eq, if◌then◌else◌,
  leb, length,
}
use go_r2ps_service.Base.Assoc.{lookup}
use go_r2ps_service.Base.Exec.{◌>>=◌, ◌>>◌, pure, fail, gets, require, guard}
use go_r2ps_service.Base.Int.{◌-ℤ◌, abs, seconds}
use go_r2ps_service.Base.Text.Base64
use go_r2ps_service.Crypto.Jws.{verify_jws, peek_kid}
use go_r2ps_service.Pake.Session.{Session}
use go_r2ps_service.Protocol.{
  Bytes, ServiceRequest, TfaRequestData, get_protocol, get_p_data, server_error,
  illegal_request_data, illegal_state, unauthorized, access_denied, unsupported_request_type,
  state_evaluate, state_finalize, tfa_mode_fido2, tfa_mode_opaque, protocol_version,
  type_sign_ecdsa,
}
use go_r2ps_service.Service.Sad.{validate_sad}
use go_r2ps_service.WebAuthn.AuthData.{PublicKey}
use go_r2ps_service.Service.Dispatcher.{
  Dispatcher, Handler, Moment, Act, refusal, send, is_registration, is_authentication, is_change,
  find_session, in_world, require_ok, mode_1fa, EcdsaSignRequest,
}
use go_r2ps_service.Service.Dispatcher.Opaque.{
  reg_evaluate, reg_finalize, auth_evaluate, auth_finalize,
}
use go_r2ps_service.Service.Dispatcher.Fido2.{handle_fido2}
use Prim.Native.String.{◌++◌ as text_append}

module _ {S M : Type 0} (d : Dispatcher S M) (t : Moment) where
  -- The key that a request is verified with: that of its kid where the store of client keys knows
  -- it, and otherwise the server's own. `none` is an unreadable header.
  abbrev pub key_or_server : Option PublicKey → PublicKey
  key_or_server none = d.server_public_key
  key_or_server (some key) = key

  abbrev pub key_for : (String → Option PublicKey) → Option String → PublicKey
  key_for keys none = d.server_public_key
  key_for keys (some kid) = key_or_server (keys kid)

  abbrev pub key_from_kid : (String → Option PublicKey) → Option (Option String) → Option PublicKey
  key_from_kid keys none = none
  key_from_kid keys (some kid) = some (key_for keys kid)

  unfoldable pub verification_key : Option (String → Option PublicKey) → Bytes → Option PublicKey
  verification_key none body = some d.server_public_key
  verification_key (some keys) body = key_from_kid keys (peek_kid d.jose body)

  -- The nonce has at least 16 bytes.
  abbrev pub is_long_enough : Option Bytes → Bool
  is_long_enough none = false
  is_long_enough (some bytes) = leb 16 (length bytes)

  unfoldable pub is_fresh : ServiceRequest → Bool
  is_fresh req = leb (abs (t.now -ℤ seconds req.iat)) d.iat_max_skew

  -- The checks of `Process`, which change nothing: the request that it goes on with.
  unfoldable pub read_request : Bytes → Act S ServiceRequest
  read_request body = do
    key ←
        require (verification_key d.client_keys body)
          (refusal illegal_request_data "invalid JWS header")
    payload ← require (verify_jws d.jose body key) (refusal illegal_request_data "invalid JWS")
    req ← require (d.codec.parse_request payload) (refusal illegal_request_data "malformed request")
    guard (req.ver == protocol_version) (refusal illegal_request_data "unsupported version")
    guard (is_long_enough (Base64.decode req.nonce))
        (refusal illegal_request_data "nonce must be at least 16 bytes")
    guard (is_fresh req) (refusal illegal_request_data "iat outside acceptable range")
    pure req

  -- The routes of `handle2FA`.
  unfoldable pub route_opaque : ServiceRequest → TfaRequestData → Bytes → Act S Bytes
  route_opaque req tfa_req req_data =
      if is_registration req.kind && tfa_req.state == state_evaluate
      then reg_evaluate d t req req_data
      else if is_registration req.kind && tfa_req.state == state_finalize
      then reg_finalize d t req req_data
      else if is_change req.kind && tfa_req.state == state_evaluate
      then reg_evaluate d t req req_data
      else if is_change req.kind && tfa_req.state == state_finalize
      then reg_finalize d t req req_data
      else if is_authentication req.kind && tfa_req.state == state_evaluate
      then auth_evaluate d t req tfa_req req_data
      else if is_authentication req.kind && tfa_req.state == state_finalize
      then auth_finalize d t req req_data
      else fail (refusal illegal_state "invalid type/state combination")

  abbrev pub handle_opaque : ServiceRequest → TfaRequestData → Act S Bytes
  handle_opaque req tfa_req = do
    req_data ←
        require (Base64.decode (get_p_data tfa_req))
          (refusal illegal_request_data "invalid request encoding")
    route_opaque req tfa_req req_data

  -- `handle2FA`.
  unfoldable pub handle_2fa : ServiceRequest → Act S Bytes
  handle_2fa req = do
    tfa_req ←
        require (d.codec.parse_tfa req.payload) (refusal illegal_request_data "malformed 2FA data")
    (if get_protocol tfa_req == tfa_mode_opaque
        then handle_opaque req tfa_req
        else if get_protocol tfa_req == tfa_mode_fido2
        then handle_fido2 d d.fido2 t req tfa_req
        else fail (
            refusal illegal_request_data
              (text_append "unsupported protocol: " (get_protocol tfa_req))))

  -- The session that a request must have: known, not expired, verified, and of its context.
  unfoldable pub require_session : ServiceRequest → Act S Session
  require_session req = do
    found ← gets (find_session t req.tfa_session_id)
    sess ← require found (refusal unauthorized "session not found or expired")
    guard sess.verified (refusal unauthorized "session not verified")
    guard (sess.context == req.context) (refusal access_denied "session context mismatch")
    pure sess

  -- `handle2FAChange`.
  unfoldable pub handle_2fa_change : ServiceRequest → Act S Bytes
  handle_2fa_change req = do sess ← require_session req; handle_2fa req

  -- The SAD test of a signing request; what cannot be read passes, and is left to the handler.
  abbrev pub sad_allows_hash : String → Option Bytes → Bool
  sad_allows_hash task none = true
  sad_allows_hash task (some hash) = validate_sad d.sha256 task hash

  abbrev pub sad_allows : String → Option EcdsaSignRequest → Bool
  sad_allows task none = true
  sad_allows task (some sign_req) = sad_allows_hash task (Base64.decode sign_req.tbs_hash)

  abbrev pub is_bound_signing : ServiceRequest → Session → Bool
  is_bound_signing req sess = req.kind == type_sign_ecdsa && not (sess.task == "")

  unfoldable pub authorize_service : ServiceRequest → Act S (Unit {0})
  authorize_service req = do
    sess ← require_session req
    guard (not (is_bound_signing req sess) || sad_allows sess.task (d.codec.parse_sign req.payload))
        (refusal access_denied "tbs_hash not authorized by session task (SAD binding violation)")

  abbrev pub gate : ServiceRequest → Bool → Act S (Unit {0})
  gate req true = pure tt
  gate req false = authorize_service req

  -- Bytes that are no JSON go out as a JSON string.
  abbrev pub as_json : Bytes → Bytes
  as_json bytes =
      if d.codec.is_json bytes then bytes else d.codec.marshal_string (Base64.encode bytes)

  -- The handler's work and its answer.
  unfoldable pub run_handler : Handler S → ServiceRequest → Act S Bytes
  run_handler handler req = do
    handled ← in_world (handler.handle t.now req.client_id req.payload)
    bytes ← require_ok handled (refusal server_error (text_append req.kind " failed"))
    send d t req (as_json bytes)

  -- `handleService`.
  unfoldable pub handle_service : ServiceRequest → Act S Bytes
  handle_service req = do
    handler ←
        require (lookup req.kind d.handlers)
          (refusal unsupported_request_type "unknown service type")
    gate req (handler.mode == mode_1fa)
    run_handler handler req

  unfoldable pub route : ServiceRequest → Act S Bytes
  route req =
      if is_registration req.kind || is_authentication req.kind
      then handle_2fa req
      else if is_change req.kind
      then handle_2fa_change req
      else handle_service req

  -- `Process`.
  unfoldable pub process : Bytes → Act S Bytes
  process body = do req ← read_request body; route req
