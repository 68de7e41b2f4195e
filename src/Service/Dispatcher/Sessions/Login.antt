-- ===== src/Service/Dispatcher/Sessions/Login.antt =====
-- The OPAQUE operations take one step of the session store.
use go_r2ps_service.Base.{
  ◌≡◌, refl, sym, subst, inl, inr, true, some, string_eq, Bool-cases, Option-cases,
}
use go_r2ps_service.Base.Exec.{
  Result, err, ◌>>=◌, ◌>>◌, require-elim, guard-elim, gets-elim, modify-elim, require, gets, pure,
  fail, modify,
}
use go_r2ps_service.Pake.Counter.{check}
use go_r2ps_service.Pake.Opaque
use go_r2ps_service.Pake.Session.{Session, SessionStore, create, mark_verified}
use go_r2ps_service.Protocol.{Bytes, ServiceRequest, TfaRequestData}
use go_r2ps_service.Service.Dispatcher.{
  Dispatcher, Moment, State, Stop, Act, check_lockout, count_failure, count_success, find_session,
  open_session,
}
use go_r2ps_service.Service.Dispatcher.Opaque.{
  auth_evaluate, auth_finalize, reject_login, accept_login, verify_session,
}
use go_r2ps_service.Service.Dispatcher.Quiet.{sign_response-Quiet}
use go_r2ps_service.Service.Dispatcher.Sessions.{SessionChange, kept, pended, dropped, confirmed}

module _ {S M : Type 0} (d : Dispatcher S M) (t : Moment) (req : ServiceRequest) where
  pub check_lockout-elim :
      {B : Type 0} (s : State S) (P : Result Stop B × State S → Type 0) (f : Act S B)
      → let verdict = check t.now req.client_id req.context req.context s.counter in
        ((stop : Stop) → P (err stop, record s { counter = verdict.0 }))
        → (verdict.1 ≡ true → P (f (record s { counter = verdict.0 })))
        → P ((check_lockout t req >> f) s)
  unfolding check_lockout ◌>>=◌
  check_lockout-elim s P f p q = guard-elim _ P _ _ _ (λ _. p _) q

  pub open_session-elim :
      {B : Type 0} (s : State S) (P : Result Stop B × State S → Type 0) (x : Session) (f : Act S B)
      → ((stop : Stop) → P (err stop, s))
      → ((u : SessionStore) → create x s.sessions ≡ some u → P (f (record s { sessions = u })))
      → P ((open_session x >> f) s)
  unfolding open_session ◌>>=◌ gets
  open_session-elim s P x f p q = elim (Option-cases (create x s.sessions)) [
    | inl none_made ↦ unfold require in unfold fail in rw none_made (p _)
    | inr (u, made) ↦ unfold require in unfold pure in unfold modify in rw made (q u made)
  ]

  pub auth_evaluate-SessionChange :
      (tfa_req : TfaRequestData) (bytes : Bytes) (s : State S)
      → SessionChange d t req s (auth_evaluate d t req tfa_req bytes s).1.sessions
  unfolding auth_evaluate
  auth_evaluate-SessionChange tfa_req bytes s =
      let P : Result Stop Bytes × State S → Type 0 = λ r. SessionChange d t req s r.1.sessions in
      check_lockout-elim s P _ (λ stop. kept refl)
        λ admitted. gets-elim _ P _ _ (
          require-elim _ P _ _ _ (kept refl) λ out e.
            open_session-elim _ P _ _ (λ stop. kept refl)
              λ u made.
                subst (λ v. SessionChange d t req s v)
                  (sym ((sign_response-Quiet d t req _).keeps _))
                  (pended _
                    (record {
                      own_client = refl;
                      own_context = refl;
                      unverified = refl;
                      lifetime = (_, refl);
                      not_locked = admitted;
                    })
                    made))

  verify_session-elim :
      {B : Type 0} (s : State S) (P : Result Stop B × State S → Type 0) (f : Act S B)
      → ((stop : Stop) → P (err stop, s))
      → ((u : SessionStore)
          → mark_verified req.tfa_session_id s.sessions ≡ some u
          → P (f (record s { sessions = u })))
      → P ((verify_session d t req >> f) s)
  unfolding verify_session ◌>>=◌ gets
  verify_session-elim s P f p q =
      elim (Option-cases (mark_verified req.tfa_session_id s.sessions)) [
        | inl missing ↦ unfold require in unfold fail in rw missing (p _)
        | inr (u, marked) ↦ unfold require in unfold pure in unfold modify in rw marked (q u marked)
      ]

  pub auth_finalize-SessionChange :
      (bytes : Bytes) (s : State S)
      → SessionChange d t req s (auth_finalize d t req bytes s).1.sessions
  unfolding auth_finalize accept_login reject_login find_session count_success count_failure fail
  auth_finalize-SessionChange bytes s =
      let P : Result Stop Bytes × State S → Type 0 = λ r. SessionChange d t req s r.1.sessions in
      gets-elim _ P _ _ (
        require-elim _ P _ _ _ (kept refl) λ x found.
          elim (Bool-cases (Opaque.auth_finalize d.opaque_server bytes x.client_mac)) [
            | inl hit ↦ rw hit (
                modify-elim _ P _ _ (
                  verify_session-elim _ P _ (λ stop. kept refl)
                    λ u marked.
                      subst (λ v. SessionChange d t req s v)
                        (sym ((sign_response-Quiet d t req _).keeps _))
                        (confirmed x bytes found hit marked)))
            | inr miss ↦
                rw miss
                  (modify-elim _ P _ _ (modify-elim _ P _ _ (dropped x bytes found miss refl)))
          ])
