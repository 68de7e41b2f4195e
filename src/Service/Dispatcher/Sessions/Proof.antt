-- ===== src/Service/Dispatcher/Sessions/Proof.antt =====
-- `fido2AuthFinalize` and the routes to the FIDO2 operations take one step of the session store.
use go_r2ps_service.Base.{◌≡◌, refl, sym, subst, String, Option, none, some, string_eq}
use go_r2ps_service.Base.Exec.{
  Result, ok, err, next, ◌>>=◌, require-elim, gets-elim, >>=-assoc-elim, pure-elim, gets-elim,
  modify-elim,
}
use go_r2ps_service.Base.Text.Base64
use go_r2ps_service.Pake.Session.{SessionStore}
use go_r2ps_service.Protocol.{Bytes, ServiceRequest, TfaRequestData, get_p_data}
use go_r2ps_service.WebAuthn.AuthData.{AuthenticatorData}
use go_r2ps_service.Service.Dispatcher.{
  Dispatcher, Fido2Handler, Moment, State, Stop, Act, count_success,
}
use go_r2ps_service.Service.Dispatcher.Fido2
use go_r2ps_service.Service.Dispatcher.Quiet.{Quiet, sign_response-Quiet}
use go_r2ps_service.Service.Dispatcher.Sessions.{HasFactor, SessionChange, kept, proved}
use go_r2ps_service.Service.Dispatcher.Sessions.Factor.{
  decoded-elim, open_token-elim, select_from-elim, asserted-elim, in_world-elim,
}
use go_r2ps_service.Service.Dispatcher.{FidoFinalizeRequest}
use go_r2ps_service.Service.Dispatcher.Sessions.Registration.{derive_session_key-Quiet}
use go_r2ps_service.Service.Dispatcher.Sessions.Login.{open_session-elim}

module _ {S M : Type 0} (d : Dispatcher S M) (f : Fido2Handler S) (t : Moment)
    (req : ServiceRequest) where
  prove_factor-elim :
      {B : Type 0} (s : State S) (P : Result Stop B × State S → Type 0)
      (final_req : FidoFinalizeRequest) (k : AuthenticatorData → Act S B)
      → d.fido2 ≡ some f
      → ((stop : Stop) (s' : State S) → s'.sessions ≡ s.sessions → P (err stop, s'))
      → ((ad : AuthenticatorData) (w : S) → HasFactor d t req s → P (k ad (record s { world = w })))
      → P ((Fido2.prove_factor d f t req final_req >>= k) s)
  unfolding Fido2.prove_factor Fido2.select_credential
  prove_factor-elim {B} s P final_req k on p q = >>=-assoc-elim s P _ _ _ (
      open_token-elim d t req f s P _ _ (λ e. p e s refl)
        λ token opened. >>=-assoc-elim s P _ _ _ (
          decoded-elim d t req f s P _ _ _ (λ e. p e s refl)
            λ id. >>=-assoc-elim s P _ _ _ (
              decoded-elim d t req f s P _ _ _ (λ e. p e s refl)
                λ ad_bytes. >>=-assoc-elim s P _ _ _ (
                  decoded-elim d t req f s P _ _ _ (λ e. p e s refl)
                    λ client_data. >>=-assoc-elim s P _ _ _ (
                      decoded-elim d t req f s P _ _ _ (λ e. p e s refl)
                        λ signature. >>=-assoc-elim s P _ _ _ (
                          >>=-assoc-elim s P _ _ _ (
                            gets-elim s P _ _ (
                              select_from-elim d t req f s P id _ _ p λ cred found.
                                >>=-assoc-elim s P _ _ _ (
                                  require-elim s P _ _ _ (p _ s refl) λ key stored.
                                    >>=-assoc-elim s P _ _ _ (
                                      asserted-elim d t req f s P _ _ p λ ad proof.
                                        >>=-assoc-elim s P _ _ _ (
                                          in_world-elim s P _ _ λ counted w. pure-elim _ P _ _ (
                                            q ad w (record {
                                              handler = f;
                                              configured = on;
                                              token = token;
                                              sealed = opened.0;
                                              bound = (opened.1, opened.2);
                                              credential = cred;
                                              registered = (id, found);
                                              key = key;
                                              stored_key = stored;
                                              assertion = _;
                                              verified = (ad, proof);
                                            })))))))))))))

  -- A quiet step of which only the sessions are known afterwards.
  quiet-elim :
      {A B : Type 0} (s : State S) (R : SessionStore → Type 0) (m : Act S A) (k : A → Act S B)
      → Quiet m
      → R s.sessions
      → ((a : A) (s' : State S) → s'.sessions ≡ s.sessions → R (k a s').1.sessions)
      → R ((m >>= k) s).1.sessions
  unfolding ◌>>=◌
  quiet-elim {A} s R m k q p r = go (m s).0 (m s).1 (q.keeps s)
    where
      go :
          (x : Result Stop A) (s' : State S) → s'.sessions ≡ s.sessions → R (next x k s').1.sessions
      go (ok a) s' e = r a s' e
      go (err stop) s' e = rw e p

  parse_p_data-elim :
      {A B : Type 0} (s : State S) (P : Result Stop B × State S → Type 0) (parse : Bytes → Option A)
      (tfa_req : TfaRequestData) (raw_msg msg : String) (k : A → Act S B)
      → ((stop : Stop) → P (err stop, s))
      → ((a : A) → P (k a s))
      → P ((Fido2.parse_p_data parse tfa_req raw_msg msg >>= k) s)
  unfolding Fido2.parse_p_data
  parse_p_data-elim {A} s P parse tfa_req raw_msg msg k p q =
      go (Base64.decode (get_p_data tfa_req))
    where
      go :
          (o : Option Bytes)
          → P ((Fido2.parse_either parse (get_p_data tfa_req) raw_msg msg o >>= k) s)
      go none = require-elim s P _ _ _ (p _) (λ a _. q a)
      go (some bytes) = require-elim s P _ _ _ (p _) (λ a _. q a)

  pub auth_finalize-SessionChange :
      (tfa_req : TfaRequestData) (s : State S)
      → d.fido2 ≡ some f
      → SessionChange d t req s (Fido2.auth_finalize d f t req tfa_req s).1.sessions
  unfolding Fido2.auth_finalize count_success
  auth_finalize-SessionChange tfa_req s on =
      let R : SessionStore → Type 0 = λ u. SessionChange d t req s u in
      let P : Result Stop Bytes × State S → Type 0 = λ r. R r.1.sessions in
      parse_p_data-elim s P _ _ _ _ _ (λ stop. kept refl)
        λ final_req.
          prove_factor-elim s P final_req _ on (λ stop s' e. kept e)
            λ ad w factor.
              quiet-elim _ R _ _ (derive_session_key-Quiet d f t req final_req) (kept refl)
                λ key s' e.
                  open_session-elim d t req s' P _ _ (λ stop. kept e)
                    λ u made. modify-elim _ P _ _ (
                      subst R (sym ((sign_response-Quiet d t req _).keeps _))
                        (proved _ (refl, refl) refl factor (rw e at made)))
