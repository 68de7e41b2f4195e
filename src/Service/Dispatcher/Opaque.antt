-- ===== src/Service/Dispatcher/Opaque.antt =====
-- internal/service/dispatcher.go: the four OPAQUE operations.
use go_r2ps_service.Base.{◌*◌, Bool, true, false, Option, none, some, if◌then◌else◌}
use go_r2ps_service.Base.Exec.{◌>>=◌, ◌>>◌, fail, gets, require, modify}
use go_r2ps_service.Base.Int.{ℤ, pos, ◌+ℤ◌, ltb_ℤ, int64, second, unix, pos_part}
use go_r2ps_service.Base.Text.Base64
use go_r2ps_service.Pake.Opaque
use go_r2ps_service.Pake.Session.{Session, mark_verified, remove}
use go_r2ps_service.Protocol.{
  Bytes, ServiceRequest, TfaRequestData, server_error, illegal_request_data, illegal_state,
  unauthorized,
}
use go_r2ps_service.Service.Dispatcher.{
  Dispatcher, Moment, Act, refusal, sign_response, tfa, tfa_auth, credential_id_of, check_lockout,
  in_world, require_ok, count_failure, count_success, find_session, open_session,
}

-- A request for a shorter session is honoured. The multiplication is that of int64.
unfoldable pub granted_ttl : ℤ → ℤ → ℤ
granted_ttl session_ttl session_duration =
    if ltb_ℤ (pos 0) session_duration
    then (let requested = int64 (pos_part session_duration * second) in
        if ltb_ℤ requested session_ttl then requested else session_ttl)
    else session_ttl

-- The record of an unknown client is made up.
abbrev pub record_or_fake :
    {M : Type 0}
    → Opaque.OpaqueLibrary M
    → ServiceRequest
    → Option (Opaque.ClientRecord M)
    → Opaque.ClientRecord M
record_or_fake o req none = o.get_fake_record (credential_id_of req)
record_or_fake o req (some r) = r

module _ {S M : Type 0} (d : Dispatcher S M) (t : Moment) (req : ServiceRequest) where
  -- `regEvaluate`.
  unfoldable pub reg_evaluate : Bytes → Act S Bytes
  reg_evaluate req_data = do
    resp ←
        require (Opaque.registration_response d.opaque_server req_data (credential_id_of req))
          (refusal server_error "registration evaluate failed")
    sign_response d t req
        (tfa (record { p_data = Base64.encode resp; response = Base64.encode resp; message = "" }))

  -- `d.records.PutRecord`, with its error.
  unfoldable pub save_record : Opaque.ClientRecord M → Act S (Unit {0})
  save_record r = do
    saved ← in_world (d.records.put_record req.client_id req.context r)
    require_ok saved (refusal server_error "store record failed")

  -- `regFinalize`.
  unfoldable pub reg_finalize : Bytes → Act S Bytes
  reg_finalize req_data = do
    r ←
        require (d.opaque_server.deserialize_record req_data)
          (refusal illegal_request_data "invalid registration record")
    save_record (record { registration_record = r; credential_identifier = credential_id_of req })
    sign_response d t req (tfa (record { p_data = ""; response = ""; message = "success" }))

  abbrev pub pending_session : TfaRequestData → Bytes → Bytes → Session
  pending_session tfa_req client_mac secret = record {
    id = Base64.encode t.session_bytes;
    client_id = req.client_id;
    context = req.context;
    session_key = secret;
    client_mac = client_mac;
    expires_at = t.now +ℤ granted_ttl d.session_ttl tfa_req.session_duration;
    verified = Bool.false;
    task = "";
  }

  -- `authEvaluate`.
  unfoldable pub auth_evaluate : TfaRequestData → Bytes → Act S Bytes
  auth_evaluate tfa_req req_data = do
    check_lockout t req
    client ← gets (λ s. d.records.get_record req.client_id req.context s.world)
    (ke2, client_mac, secret) ←
        require
          (Opaque.auth_evaluate d.opaque_server req_data
            (record_or_fake d.opaque_server req client))
          (refusal server_error "auth evaluate failed")
    open_session (pending_session tfa_req client_mac secret)
    sign_response d t req (
        tfa_auth (record {
          session_id = Base64.encode t.session_bytes;
          tfa_session_id = Base64.encode t.session_bytes;
          p_data = Base64.encode ke2;
          response = Base64.encode ke2;
          message = "";
          session_expiration_time = pos 0;
          task = "";
        }))

  unfoldable pub reject_login : Act S Bytes
  reject_login = do
    modify (count_failure t req)
    modify (λ s. record s { sessions = remove req.tfa_session_id s.sessions })
    fail (refusal unauthorized "authentication failed")

  -- `d.sessions.MarkVerified`, with its error.
  unfoldable pub verify_session : Act S (Unit {0})
  verify_session = do
    marked ← gets (λ s. mark_verified req.tfa_session_id s.sessions)
    sessions ← require marked (refusal server_error "session update failed")
    modify (λ s. record s { sessions = sessions })

  unfoldable pub accept_login : Session → Act S Bytes
  accept_login sess = do
    modify (count_success t req)
    verify_session
    sign_response d t req (
        tfa_auth (record {
          session_id = req.tfa_session_id;
          tfa_session_id = req.tfa_session_id;
          p_data = "";
          response = "";
          message = "authenticated";
          session_expiration_time = unix sess.expires_at;
          task = "";
        }))

  abbrev pub finish_login : Session → Bool → Act S Bytes
  finish_login sess true = accept_login sess
  finish_login sess false = reject_login

  -- `authFinalize`.
  unfoldable pub auth_finalize : Bytes → Act S Bytes
  auth_finalize req_data = do
    found ← gets (find_session t req.tfa_session_id)
    sess ← require found (refusal illegal_state "session not found or expired")
    finish_login sess (Opaque.auth_finalize d.opaque_server req_data sess.client_mac)
