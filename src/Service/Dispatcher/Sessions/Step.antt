-- ===== src/Service/Dispatcher/Sessions/Step.antt =====
-- Every request takes one step of the session store.
use go_r2ps_service.Base.{
  ◌≡◌, refl, ◌⊎◌, inl, inr, String, Bool, true, false, ◌&&◌, ◌||◌, Option, none, some, ◌==◌,
  string_eq, if◌then◌else◌,
}
use go_r2ps_service.Base.Exec.{◌>>=◌, require-elim, require, fail}
use go_r2ps_service.Protocol.{
  Bytes, ServiceRequest, TfaRequestData, get_protocol, state_challenge, state_register,
  state_evaluate, state_finalize, tfa_mode_opaque, tfa_mode_fido2,
}
use go_r2ps_service.Service.Dispatcher.{
  Dispatcher, Fido2Handler, Moment, State, Stop, Act, is_registration, is_authentication, is_change,
}
use go_r2ps_service.Service.Dispatcher.Fido2
use go_r2ps_service.Service.Dispatcher.Process.{
  route_opaque, handle_2fa, handle_2fa_change, handle_service, route, process,
}
use go_r2ps_service.Service.Dispatcher.Access.{
  process-cases, IsAccepted, handle_2fa_change-cases, handle_service-cases,
}
use go_r2ps_service.Service.Dispatcher.Quiet.{
  Quiet, reg_evaluate-Quiet, reg_finalize-Quiet, run_handler-Quiet, fail-Quiet,
}
use go_r2ps_service.Service.Dispatcher.Sessions.{SessionChange, kept}
use go_r2ps_service.Service.Dispatcher.Sessions.Factor.{reg_challenge-Quiet}
use go_r2ps_service.Service.Dispatcher.Sessions.Registration.{reg_register-Quiet}
use go_r2ps_service.Service.Dispatcher.Sessions.Login.{check_lockout-elim}
use go_r2ps_service.Service.Dispatcher.Sessions.Proof.{auth_finalize-SessionChange}
use go_r2ps_service.Service.Dispatcher.Sessions.Login.{
  auth_evaluate-SessionChange, auth_finalize-SessionChange as login-SessionChange,
}

module _ {S M : Type 0} (d : Dispatcher S M) (t : Moment) (req : ServiceRequest) where
  -- The action takes one step, from any state.
  pub record Moves (m : Act S Bytes) : Type 0 where
    pub step : (s : State S) → SessionChange d t req s (m s).1.sessions

  Moves-Quiet : (m : Act S Bytes) → Quiet m → Moves m
  Moves-Quiet m q = record { step = λ s. kept (q.keeps s) }

  Moves-if : (b : Bool) (m n : Act S Bytes) → Moves m → Moves n → Moves (if b then m else n)
  Moves-if true m n p q = p
  Moves-if false m n p q = q

  Moves-require :
      {A : Type 0} (o : Option A) (stop : Stop) (k : A → Act S Bytes)
      → ((a : A) → Moves (k a))
      → Moves (require o stop >>= k)
  Moves-require o stop k q = record {
    step = λ s.
        require-elim s (λ r. SessionChange d t req s r.1.sessions) _ _ _ (kept refl)
          (λ a _. (q a).step s);
  }

  Moves-fail : (stop : Stop) → Moves (fail stop)
  Moves-fail stop = Moves-Quiet _ (fail-Quiet stop)

  auth_challenge-Moves : (f : Fido2Handler S) → Moves (Fido2.auth_challenge d f t req)
  unfolding Fido2.auth_challenge
  auth_challenge-Moves f = record {
    step = λ s.
        check_lockout-elim d t req s (λ r. SessionChange d t req s r.1.sessions) _
          (λ stop. kept refl) (λ admitted. kept ((reg_challenge-Quiet d t req f).keeps _));
  }

  handle_fido2-Moves :
      (o : Option (Fido2Handler S)) (tfa_req : TfaRequestData)
      → d.fido2 ≡ o
      → Moves (Fido2.handle_fido2 d o t req tfa_req)
  unfolding Fido2.handle_fido2
  handle_fido2-Moves none tfa_req e = Moves-fail _
  handle_fido2-Moves (some f) tfa_req e =
      let kind = req.kind in
      let at : String → Bool = λ state. tfa_req.state == state in
      Moves-if (is_registration kind && at state_challenge) _ _
        (Moves-Quiet _ (reg_challenge-Quiet d t req f))
        (Moves-if (is_registration kind && at state_register) _ _
          (Moves-Quiet _ (reg_register-Quiet d f t req tfa_req))
          (Moves-if (is_authentication kind && at state_challenge) _ _ (auth_challenge-Moves f) (
            Moves-if (is_authentication kind && at state_finalize) _ _
              (record { step = λ s. auth_finalize-SessionChange d f t req tfa_req s e })
              (Moves-fail _))))

  route_opaque-Moves :
      (tfa_req : TfaRequestData) (bytes : Bytes) → Moves (route_opaque d t req tfa_req bytes)
  unfolding route_opaque
  route_opaque-Moves tfa_req bytes =
      let kind = req.kind in
      let at : String → Bool = λ state. tfa_req.state == state in
      let evaluates = Moves-Quiet _ (reg_evaluate-Quiet d t req bytes) in
      let finalizes = Moves-Quiet _ (reg_finalize-Quiet d t req bytes) in
      Moves-if (is_registration kind && at state_evaluate) _ _ evaluates (
        Moves-if (is_registration kind && at state_finalize) _ _ finalizes (
          Moves-if (is_change kind && at state_evaluate) _ _ evaluates (
            Moves-if (is_change kind && at state_finalize) _ _ finalizes (
              Moves-if (is_authentication kind && at state_evaluate) _ _
                (record { step = λ s. auth_evaluate-SessionChange d t req tfa_req bytes s })
                (Moves-if (is_authentication kind && at state_finalize) _ _
                  (record { step = λ s. login-SessionChange d t req bytes s }) (Moves-fail _))))))

  handle_2fa-Moves : Moves (handle_2fa d t req)
  unfolding handle_2fa
  handle_2fa-Moves = Moves-require _ _ _ λ tfa_req.
      Moves-if (get_protocol tfa_req == tfa_mode_opaque) _ _
        (Moves-require _ _ _ λ bytes. route_opaque-Moves tfa_req bytes)
        (Moves-if (get_protocol tfa_req == tfa_mode_fido2) _ _
          (handle_fido2-Moves d.fido2 tfa_req refl) (Moves-fail _))

  handle_2fa_change-Moves : Moves (handle_2fa_change d t req)
  handle_2fa_change-Moves = record {
    step = λ s. elim (handle_2fa_change-cases d t req s) [
      | inl (x, admits, e) ↦ rw e (handle_2fa-Moves.step s)
      | inr (inl (msg, e)) ↦ rw e (kept refl)
      | inr (inr (msg, e)) ↦ rw e (kept refl)
    ];
  }

  handle_service-Moves : Moves (handle_service d t req)
  handle_service-Moves = record {
    step = λ s. elim (handle_service-cases d t req s) [
      | inl (h, found, may, e) ↦ rw e (kept ((run_handler-Quiet d t req h).keeps s))
      | inr (inl (_, inl (msg, e))) ↦ rw e (kept refl)
      | inr (inl (_, inr (msg, e))) ↦ rw e (kept refl)
      | inr (inr (missing, (msg, e))) ↦ rw e (kept refl)
    ];
  }

  route-Moves : Moves (route d t req)
  unfolding route
  route-Moves =
      Moves-if (is_registration req.kind || is_authentication req.kind) _ _ handle_2fa-Moves
        (Moves-if (is_change req.kind) _ _ handle_2fa_change-Moves handle_service-Moves)

-- Whatever bytes come in, the sessions stay as they are, or the request that the bytes carry takes
-- one of the five steps that `SessionChange` lists.
pub process-SessionChange :
    {S M : Type 0} (d : Dispatcher S M) (t : Moment) (body : Bytes) (s : State S)
    → ((process d t body s).1.sessions ≡ s.sessions)
      ⊎ ((req : ServiceRequest) × IsAccepted d t body req
          × SessionChange d t req s (process d t body s).1.sessions)
process-SessionChange d t body s = elim (process-cases d t body s) [
  | inl (req, accepted, e) ↦ inr (req, accepted, rw e ((route-Moves d t req).step s))
  | inr (msg, e) ↦ inl (rw e refl)
]
