-- ===== src/Service/Dispatcher/Sessions.antt =====
-- internal/service: what one request can do to the session store, as a step relation.
pub mod Login
pub mod Factor
pub mod Registration
pub mod Proof
pub mod Step
pub mod Reach
use go_r2ps_service.Base.{
  ℕ, ◌≡◌, refl, sym, subst, ap, ◌∙◌, ◌≢◌, ◌⊎◌, inl, inr, String, Bool, true, false, not, ◌&&◌, ◌||◌,
  Option, none, some, ◌==◌, string_eq, arith, Bool-cases, Option-cases, if◌then◌else◌, List, [],
  ◌∷◌,
}
use go_r2ps_service.Base.Exec.{
  Result, ok, err, Exec, ◌>>=◌, ◌>>◌, require-elim, guard-elim, gets-elim, modify-elim, require,
  gets, guard, pure, fail, modify,
}
use go_r2ps_service.Base.Int.{ℤ, ◌+ℤ◌, ◌≤ℤ◌}
use go_r2ps_service.Base.Text.Base64
use go_r2ps_service.Pake.Counter.{check}
use go_r2ps_service.Pake.Opaque
use go_r2ps_service.Pake.Session.{Session, SessionStore, create, get, mark_verified, remove}
use go_r2ps_service.Protocol.{Bytes, ServiceRequest, TfaRequestData}
use go_r2ps_service.Store.{WebAuthnCredential}
use go_r2ps_service.WebAuthn.AuthData.{PublicKey, AuthenticatorData}
use go_r2ps_service.WebAuthn.Token.{ChallengeToken, decrypt}
use go_r2ps_service.WebAuthn.Verify.{AssertionData, Credential, verify_assertion}
use go_r2ps_service.Service.Dispatcher.{
  Dispatcher, Fido2Handler, Handler, Moment, State, Stop, Act, sign_response, send, check_lockout,
  count_failure, count_success, find_session, open_session, in_world, require_ok, ResponseData,
}
use go_r2ps_service.Service.Dispatcher.Quiet.{Quiet}
use go_r2ps_service.Service.Dispatcher.Opaque.{
  granted_ttl, reg_evaluate, reg_finalize, save_record, auth_evaluate, auth_finalize, reject_login,
  accept_login, verify_session,
}
use go_r2ps_service.Service.Dispatcher.Fido2
use go_r2ps_service.Service.Dispatcher.Process.{
  route_opaque, handle_2fa, handle_2fa_change, handle_service, run_handler, route, process,
}
use go_r2ps_service.Service.Dispatcher.Access.{
  process-cases, handle_2fa_change-cases, handle_service-cases,
}

module _ {S M : Type 0} (d : Dispatcher S M) (t : Moment) (req : ServiceRequest) where
  -- A session that `authEvaluate` opens: for the client and the context of the request, not
  -- verified, and for no longer than the server grants.
  pub record IsPending (s : State S) (x : Session) : Type 0 where
    pub own_client : x.client_id ≡ req.client_id
    pub own_context : x.context ≡ req.context
    pub unverified : x.verified ≡ false
    pub lifetime : (duration : ℤ) × (x.expires_at ≡ t.now +ℤ granted_ttl d.session_ttl duration)
    pub not_locked : (check t.now req.client_id req.context req.context s.counter).1 ≡ true

  -- What proves the FIDO2 factor: a fresh token of this client and context, and an assertion by
  -- a registered credential over the token's challenge.
  pub record HasFactor (s : State S) : Type 0 where
    pub handler : Fido2Handler S
    pub configured : d.fido2 ≡ some handler
    pub token : ChallengeToken
    pub sealed : (bytes : Bytes) × (decrypt handler.token_encryptor t.now bytes ≡ some token)
    pub bound : (token.client_id ≡ req.client_id) × (token.context ≡ req.context)
    pub credential : WebAuthnCredential
    pub registered :
        (id : Bytes) × (Fido2.find_credential id (
            Fido2.ok_or_empty
              (handler.store.get_web_authn_credential req.client_id req.context s.world))
          ≡ some credential)
    pub key : PublicKey
    pub stored_key : handler.unmarshal_point credential.public_key ≡ some key
    pub assertion : AssertionData
    pub verified :
        (ad : AuthenticatorData) × (verify_assertion handler.primitives assertion
            (record {
              credential_id = credential.credential_id;
              public_key = key;
              sign_count = credential.sign_count;
            })
            token.challenge
            handler.rp_id
            handler.allowed_origins
          ≡ Result.ok ad)

  -- The effect of a request on the sessions.
  pub data SessionChange (s : State S) (u : SessionStore) : Type 0 where
    kept : u ≡ s.sessions → SessionChange s u
    pended : (x : Session) → IsPending s x → create x s.sessions ≡ some u → SessionChange s u
    dropped :
        (x : Session) (ke3 : Bytes)
        → get t.now req.tfa_session_id s.sessions ≡ some x
        → Opaque.auth_finalize d.opaque_server ke3 x.client_mac ≡ false
        → u ≡ remove req.tfa_session_id s.sessions
        → SessionChange s u
    confirmed :
        (x : Session) (ke3 : Bytes)
        → get t.now req.tfa_session_id s.sessions ≡ some x
        → Opaque.auth_finalize d.opaque_server ke3 x.client_mac ≡ true
        → mark_verified req.tfa_session_id s.sessions ≡ some u
        → SessionChange s u
    proved :
        (x : Session)
        → (x.client_id ≡ req.client_id) × (x.context ≡ req.context)
        → x.expires_at ≡ t.now +ℤ d.session_ttl
        → HasFactor s
        → create x s.sessions ≡ some u
        → SessionChange s u

  pub quiet : {A : Type 0} (m : Act S A) (s : State S) → Quiet m → SessionChange s (m s).1.sessions
  quiet m s q = kept (q.keeps s)
