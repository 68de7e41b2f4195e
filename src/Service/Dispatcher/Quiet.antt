-- ===== src/Service/Dispatcher/Quiet.antt =====
-- Which parts of the dispatcher leave the session store alone.
use go_r2ps_service.Base.{◌≡◌, refl, sym, ap, ◌∙◌, Bool, true, false, Option, none, some, string_eq}
use go_r2ps_service.Base.Exec.{Result, ok, err, Exec, ◌>>=◌, require, gets, guard, pure, fail}
use go_r2ps_service.Pake.Opaque
use go_r2ps_service.Pake.Session.{SessionStore}
use go_r2ps_service.Protocol.{Bytes, ServiceRequest}
use go_r2ps_service.Service.Dispatcher.{
  Dispatcher, Handler, Moment, State, Stop, Act, sign_response, send, in_world, require_ok,
  ResponseData,
}
use go_r2ps_service.Service.Dispatcher.Opaque.{reg_evaluate, reg_finalize, save_record}
use go_r2ps_service.Service.Dispatcher.Process.{run_handler}

-- An action that leaves the sessions alone.
pub record Quiet {S A : Type 0} (m : Act S A) : Type 0 where
  pub keeps : (s : State S) → (m s).1.sessions ≡ s.sessions

module _ {S : Type 0} {A B : Type 0} where
  pub >>=-Quiet :
      (m : Act S A) (f : A → Act S B) → Quiet m → ((a : A) → Quiet (f a)) → Quiet (m >>= f)
  unfolding ◌>>=◌
  >>=-Quiet m f q r = record { keeps = λ s. go s (m s).0 (m s).1 refl refl }
    where
      go :
          (s : State S) (x : Result Stop A) (s' : State S)
          → (m s).0 ≡ x
          → (m s).1 ≡ s'
          → ((m >>= f) s).1.sessions ≡ s.sessions
      go s (ok a) s' e e' = rw (e, e') ((r a).keeps s' ∙ ap (λ u. u.sessions) (sym e') ∙ q.keeps s)
      go s (err stop) s' e e' = rw (e, e') (ap (λ u. u.sessions) (sym e') ∙ q.keeps s)

  -- What follows and is quiet can be left out.
  pub before-Quiet :
      (P : SessionStore → Type 0) (m : Act S A) (f : A → Act S B) (s : State S)
      → ((a : A) → Quiet (f a))
      → P (m s).1.sessions
      → P ((m >>= f) s).1.sessions
  unfolding ◌>>=◌
  before-Quiet P m f s q p = go (m s).0 (m s).1 refl refl
    where
      go :
          (x : Result Stop A) (s' : State S)
          → (m s).0 ≡ x
          → (m s).1 ≡ s'
          → P ((m >>= f) s).1.sessions
      go (ok a) s' e e' = rw (e, e', (q a).keeps s', ← e') p
      go (err stop) s' e e' = rw (e, e', ← e') p

module _ {S : Type 0} {A : Type 0} where
  pub require-Quiet : (o : Option A) (stop : Stop) → Quiet {S = S} (require o stop)
  unfolding require pure fail
  require-Quiet none stop = record { keeps = λ s. refl }
  require-Quiet (some a) stop = record { keeps = λ s. refl }

  pub require_ok-Quiet :
      {E : Type 0} (r : Result E A) (stop : Stop) → Quiet {S = S} (require_ok r stop)
  unfolding pure fail
  require_ok-Quiet (ok a) stop = record { keeps = λ s. refl }
  require_ok-Quiet (err e) stop = record { keeps = λ s. refl }

  pub in_world-Quiet : {E : Type 0} (m : Exec S E A) → Quiet (in_world m)
  in_world-Quiet m = record { keeps = λ s. refl }

module _ {S : Type 0} where
  pub pure-Quiet : {A : Type 0} (a : A) → Quiet {S = S} (pure a)
  unfolding pure
  pure-Quiet a = record { keeps = λ s. refl }

  pub fail-Quiet : {A : Type 0} (stop : Stop) → Quiet {S = S} {A = A} (fail stop)
  unfolding fail
  fail-Quiet stop = record { keeps = λ s. refl }

  pub gets-Quiet : {A : Type 0} (f : State S → A) → Quiet (gets f)
  unfolding gets
  gets-Quiet f = record { keeps = λ s. refl }

  pub guard-Quiet : (b : Bool) (stop : Stop) → Quiet {S = S} (guard b stop)
  unfolding guard
  guard-Quiet true stop = pure-Quiet tt
  guard-Quiet false stop = fail-Quiet stop

pub ruleset quiet_rules = (
  >>=-Quiet, require-Quiet, require_ok-Quiet, in_world-Quiet, pure-Quiet, fail-Quiet, gets-Quiet,
  guard-Quiet,
)

module _ {S M : Type 0} (d : Dispatcher S M) (t : Moment) (req : ServiceRequest) where
  pub send-Quiet : (bytes : Bytes) → Quiet (send d t req bytes)
  unfolding send
  send-Quiet bytes = >>=-Quiet _ _ (require-Quiet _ _) (λ json. require-Quiet _ _)

  pub sign_response-Quiet : (x : ResponseData) → Quiet (sign_response d t req x)
  unfolding sign_response
  sign_response-Quiet x = >>=-Quiet _ _ (require-Quiet _ _) (λ json. send-Quiet json)

  pub reg_evaluate-Quiet : (bytes : Bytes) → Quiet (reg_evaluate d t req bytes)
  unfolding reg_evaluate
  reg_evaluate-Quiet bytes = >>=-Quiet _ _ (require-Quiet _ _) (λ json. sign_response-Quiet _)

  save_record-Quiet : (r : Opaque.ClientRecord M) → Quiet (save_record d t req r)
  unfolding save_record
  save_record-Quiet r = >>=-Quiet _ _ (in_world-Quiet _) (λ saved. require_ok-Quiet saved _)

  pub reg_finalize-Quiet : (bytes : Bytes) → Quiet (reg_finalize d t req bytes)
  unfolding reg_finalize
  reg_finalize-Quiet bytes =
      >>=-Quiet _ _ (require-Quiet _ _)
        (λ r. >>=-Quiet _ _ (save_record-Quiet _) (λ _. sign_response-Quiet _))

  pub run_handler-Quiet : (h : Handler S) → Quiet (run_handler d t h req)
  unfolding run_handler
  run_handler-Quiet h =
      >>=-Quiet _ _ (in_world-Quiet _)
        (λ handled. >>=-Quiet _ _ (require_ok-Quiet handled _) (λ bytes. send-Quiet _))
