-- ===== src/Service/Dispatcher/Sessions/Registration.antt =====
-- The FIDO2 registration leaves the sessions alone, as does the derivation of a session key.
use go_r2ps_service.Base.{String, Bool, true, false, Option, none, some, string_eq}
use go_r2ps_service.Base.Exec.{Result, ok, err}
use go_r2ps_service.Base.Text.Base64
use go_r2ps_service.Protocol.{Bytes, ServiceRequest, TfaRequestData, get_p_data}
use go_r2ps_service.WebAuthn.Outcome.{Fault}
use go_r2ps_service.WebAuthn.AuthData.{AuthenticatorData}
use go_r2ps_service.Service.Dispatcher.{Dispatcher, Fido2Handler, Moment}
use go_r2ps_service.Service.Dispatcher.Fido2
use go_r2ps_service.Service.Dispatcher.Quiet.{
  Quiet, require-Quiet, sign_response-Quiet, quiet_rules, pure-Quiet, fail-Quiet,
}
use go_r2ps_service.Service.Dispatcher.{FidoFinalizeRequest}

module _ {S M : Type 0} (d : Dispatcher S M) (f : Fido2Handler S) (t : Moment)
    (req : ServiceRequest) where
  decoded-Quiet : (text msg : String) → Quiet (Fido2.decoded d f t req text msg)
  unfolding Fido2.decoded
  decoded-Quiet text msg = require-Quiet _ _

  pub derive_session_key-Quiet :
      (final_req : FidoFinalizeRequest) → Quiet (Fido2.derive_session_key d f t req final_req)
  unfolding Fido2.derive_session_key
  derive_session_key-Quiet final_req = search (quiet_rules, decoded-Quiet) depth 12

  open_token-Quiet : (text : String) → Quiet (Fido2.open_token d f t req text)
  unfolding Fido2.open_token
  open_token-Quiet text = search (quiet_rules, decoded-Quiet)

  authorize_change-Quiet :
      (tfa_req : TfaRequestData) → Quiet (Fido2.authorize_change d f t req tfa_req)
  unfolding Fido2.authorize_change
  authorize_change-Quiet tfa_req = search quiet_rules

  authorize_registration-Quiet :
      (tfa_req : TfaRequestData) (b : Bool)
      → Quiet (Fido2.authorize_registration d f t req tfa_req b)
  authorize_registration-Quiet tfa_req true = authorize_change-Quiet tfa_req
  authorize_registration-Quiet tfa_req false = pure-Quiet tt

  challenge_of-Quiet :
      (tfa_req : TfaRequestData) (b : Bool) → Quiet (Fido2.challenge_of d f t req tfa_req b)
  challenge_of-Quiet tfa_req true = search (quiet_rules, open_token-Quiet)
  challenge_of-Quiet tfa_req false = pure-Quiet ""

  registered-Quiet : (r : Result Fault AuthenticatorData) → Quiet (Fido2.registered d f t req r)
  registered-Quiet (ok ad) = pure-Quiet ad
  registered-Quiet (err e) = fail-Quiet _

  stored-Quiet : {E : Type 0} (r : Result E (Unit {0})) → Quiet (Fido2.stored d f t req r)
  stored-Quiet (ok _) = pure-Quiet tt
  stored-Quiet (err _) = fail-Quiet _

  pub parse_p_data-Quiet :
      {A : Type 0} (parse : Bytes → Option A) (tfa_req : TfaRequestData) (raw_msg msg : String)
      → Quiet {S = S} (Fido2.parse_p_data parse tfa_req raw_msg msg)
  unfolding Fido2.parse_p_data
  parse_p_data-Quiet parse tfa_req raw_msg msg = go (Base64.decode (get_p_data tfa_req))
    where
      go :
          (o : Option Bytes)
          → Quiet {S = S} (Fido2.parse_either parse (get_p_data tfa_req) raw_msg msg o)
      go none = require-Quiet _ _
      go (some bytes) = require-Quiet _ _

  pub reg_register-Quiet : (tfa_req : TfaRequestData) → Quiet (Fido2.reg_register d f t req tfa_req)
  unfolding Fido2.reg_register
  reg_register-Quiet tfa_req =
      search
        (
          quiet_rules, parse_p_data-Quiet, decoded-Quiet, authorize_registration-Quiet,
          challenge_of-Quiet, registered-Quiet, stored-Quiet, sign_response-Quiet,
        )
        depth 20
