-- ===== src/Client/Login/Phases.antt =====
-- The two requests of a login, as the dispatcher carries them out.
use go_r2ps_service.Base.{
  ◌<◌, ◌≡◌, refl, String, true, false, none, some, All, string_eq, ◌==◌, eq_iff, ap, sym, ◌∙◌, inl,
  inr, Bool-cases,
}
use go_r2ps_service.Base.Assoc.{lookup, insert}
use go_r2ps_service.Base.Exec.{ok, pure, guard, modify}
use go_r2ps_service.Base.Exec.Runs.{>>=-runs, require-runs, gets-runs, modify-runs}
use go_r2ps_service.Base.Int.{pos, unix}
use go_r2ps_service.Base.Text.Base64
use go_r2ps_service.Base.Text.Base64.RoundTrip.{decode-encode}
use go_r2ps_service.Client.{Client, Sending, request_of, opaque_request}
use go_r2ps_service.Client.Login.{World, IsAnswered}
use go_r2ps_service.Client.Login.Link.{sign_response-runs}
use go_r2ps_service.Pake.Counter.{check}
use go_r2ps_service.Pake.Opaque
use go_r2ps_service.Pake.Session.{Session, create, get, mark_verified, is_expired}
use go_r2ps_service.Protocol.{
  Bytes, ServiceRequest, TfaAuthResponseData, state_evaluate, state_finalize, type_2fa_authenticate,
  first_nonempty, get_p_data,
}
use go_r2ps_service.Service.Dispatcher.{
  Dispatcher, Moment, State, tfa_auth, check_lockout, count_success, find_session, open_session,
}
use go_r2ps_service.Service.Dispatcher.Opaque.{
  pending_session, auth_evaluate, auth_finalize, accept_login, verify_session,
}
use go_r2ps_service.Service.Dispatcher.Process.{route, handle_2fa, route_opaque, handle_opaque}

first_nonempty-empty : (a : String) → first_nonempty a "" ≡ a
first_nonempty-empty a = elim (Bool-cases (a == "")) [
  | inl empty ↦ rw empty (sym ((eq_iff a "").0 empty))
  | inr full ↦ rw full
]

-- The message of an OPAQUE request, as the dispatcher reads it.
pub message_read :
    (state : String) (message : Bytes)
    → All (λ x. x < 256) message
    → Base64.decode (get_p_data (opaque_request state message)) ≡ some message
message_read state message small =
    ap Base64.decode (first_nonempty-empty (Base64.encode message)) ∙ decode-encode message small

module _ {K J C N S M : Type 0} (c : Client K J C N (World S)) (d : Dispatcher S M) (t : Moment)
    (u : Sending) (b message : Bytes) where
  abbrev pub login_request : String → ServiceRequest
  login_request id = request_of c u type_2fa_authenticate id b

  abbrev pub session_id_of : String
  session_id_of = Base64.encode t.session_bytes

  abbrev pub pending : Bytes → Bytes → Session
  pending mac secret =
      pending_session d t (login_request "") (opaque_request state_evaluate message) mac secret

  abbrev pub opened : State S → Bytes → Bytes → State S
  opened s mac secret = record s {
    counter = (check t.now c.client_id c.context c.context s.counter).0;
    sessions = insert session_id_of (pending mac secret) s.sessions;
  }

  abbrev pub evaluated_answer : Bytes → TfaAuthResponseData
  evaluated_answer ke2 = record {
    session_id = session_id_of;
    tfa_session_id = session_id_of;
    p_data = Base64.encode ke2;
    response = Base64.encode ke2;
    message = "";
    session_expiration_time = pos 0;
    task = "";
  }

  pub evaluate-runs :
      (s : State S) (r : Opaque.ClientRecord M) (ke2 mac secret : Bytes)
      → d.codec.parse_tfa b ≡ some (opaque_request state_evaluate message)
      → All (λ x. x < 256) message
      → (check t.now c.client_id c.context c.context s.counter).1 ≡ true
      → d.records.get_record c.client_id c.context s.world ≡ some r
      → Opaque.auth_evaluate d.opaque_server message r ≡ some (ke2, mac, secret)
      → lookup session_id_of s.sessions ≡ none
      → (a : IsAnswered c d t (login_request "") (tfa_auth (evaluated_answer ke2)))
      → route d t (login_request "") s ≡ (ok a.out, opened s mac secret)
  unfolding route handle_2fa route_opaque auth_evaluate check_lockout open_session create guard pure
      modify
  evaluate-runs s r ke2 mac secret read small admitted known evaluated new a =
      let signed =
        sign_response-runs c d t (login_request "") (tfa_auth (evaluated_answer ke2))
          (opened s mac secret) a in
      let tfa = opaque_request state_evaluate message in
      let answered : auth_evaluate d t (login_request "") tfa message s
          ≡ (ok a.out, opened s mac secret) =
        >>=-runs s _ (check_lockout t (login_request "")) _
          {t = record s { counter = (check t.now c.client_id c.context c.context s.counter).0 }}
          (rw admitted)
          (gets-runs _ _ _ _ (
            require-runs _ _ _ _ _ {a = (ke2, mac, secret)} (rw known evaluated) (
              >>=-runs _ _ (open_session (pending mac secret)) _ {t = opened s mac secret}
                (gets-runs _ _ _ _ (require-runs _ _ _ _ _ (rw new) refl)) signed))) in
      let routed : handle_opaque d t (login_request "") tfa s ≡ (ok a.out, opened s mac secret) =
        require-runs s _ _ _ _ (message_read state_evaluate message small) answered in
      require-runs s _ _ _ _ read routed

  abbrev pub closed : State S → Session → String → State S
  closed s x id = record s {
    counter = (count_success t (login_request id) s).counter;
    sessions = insert id (record x { verified = true }) s.sessions;
  }

  abbrev pub finalized_answer : String → Session → TfaAuthResponseData
  finalized_answer id x = record {
    session_id = id;
    tfa_session_id = id;
    p_data = "";
    response = "";
    message = "authenticated";
    session_expiration_time = unix x.expires_at;
    task = "";
  }

  pub finalize-runs :
      (s : State S) (id : String) (x : Session)
      → d.codec.parse_tfa b ≡ some (opaque_request state_finalize message)
      → All (λ x. x < 256) message
      → lookup id s.sessions ≡ some x
      → is_expired t.now x ≡ false
      → Opaque.auth_finalize d.opaque_server message x.client_mac ≡ true
      → (a : IsAnswered c d t (login_request id) (tfa_auth (finalized_answer id x)))
      → route d t (login_request id) s ≡ (ok a.out, closed s x id)
  unfolding route handle_2fa route_opaque auth_finalize find_session get accept_login verify_session
      mark_verified count_success pure modify
  finalize-runs s id x read small there unexpired finished a =
      let signed =
        sign_response-runs c d t (login_request id) (tfa_auth (finalized_answer id x))
          (closed s x id) a in
      let tfa = opaque_request state_finalize message in
      let accepted : accept_login d t (login_request id) x s ≡ (ok a.out, closed s x id) =
        modify-runs s _ _ _ (
          >>=-runs _ _ (verify_session d t (login_request id)) _ {t = closed s x id}
            (gets-runs _ _ _ _ (require-runs _ _ _ _ _ (rw there) refl)) signed) in
      let answered : auth_finalize d t (login_request id) message s ≡ (ok a.out, closed s x id) =
        gets-runs s _ _ _
          (require-runs s _ _ _ _ {a = x} (rw (there, unexpired)) (rw finished accepted)) in
      let routed : handle_opaque d t (login_request id) tfa s ≡ (ok a.out, closed s x id) =
        require-runs s _ _ _ _ (message_read state_finalize message small) answered in
      require-runs s _ _ _ _ read routed
