-- ===== src/Protocol.antt =====
-- pkg/r2ps/types.go: the messages of the protocol and its constants, with the error type of
-- internal/service/dispatcher.go. A JSON document that the program only carries is its bytes.
use go_r2ps_service.Base.{ℕ, String, Bool, List, ◌==◌, if◌then◌else◌, Option, string_eq}
use go_r2ps_service.Base.Int.{ℤ}

abbrev pub Bytes : Type 0
Bytes = List ℕ

pub record ServiceRequest : Type 0 where
  pub ver : String
  pub nonce : String
  pub iat : ℤ
  pub payload : Bytes
  pub client_id : String
  pub context : String
  pub kind : String
  pub tfa_session_id : String
  pub jwe_hash : String

pub record ServiceResponse : Type 0 where
  pub ver : String
  pub nonce : String
  pub iat : ℤ
  pub payload : Bytes
  pub success : Option Bool

pub record TfaRequestData : Type 0 where
  pub protocol : String
  pub tfa_mode : String
  pub state : String
  pub p_data : String
  pub request : String
  pub authorization : String
  pub authorization_type : String
  pub session_duration : ℤ

pub record TfaResponseData : Type 0 where
  pub p_data : String
  pub response : String
  pub message : String

pub record TfaAuthResponseData : Type 0 where
  pub session_id : String
  pub tfa_session_id : String
  pub p_data : String
  pub response : String
  pub message : String
  pub session_expiration_time : ℤ
  pub task : String

-- The current field, or the legacy one where that is empty.
abbrev pub first_nonempty : String → String → String
first_nonempty a b = if a == "" then b else a

-- `TFARequestData.GetProtocol`.
abbrev pub get_protocol : TfaRequestData → String
get_protocol t = first_nonempty t.protocol t.tfa_mode

-- `TFARequestData.GetPData`.
abbrev pub get_p_data : TfaRequestData → String
get_p_data t = first_nonempty t.p_data t.request

abbrev pub protocol_version : String
protocol_version = "1.0"

abbrev pub tfa_mode_opaque : String
tfa_mode_opaque = "opaque"

abbrev pub tfa_mode_fido2 : String
tfa_mode_fido2 = "fido2"

abbrev pub state_evaluate : String
state_evaluate = "evaluate"

abbrev pub state_finalize : String
state_finalize = "finalize"

abbrev pub state_challenge : String
state_challenge = "challenge"

abbrev pub state_register : String
state_register = "register"

abbrev pub type_2fa_registration : String
type_2fa_registration = "2fa_registration"

abbrev pub type_create_session : String
type_create_session = "create_session"

abbrev pub type_2fa_update : String
type_2fa_update = "2fa_update"

abbrev pub type_2fa_authenticate : String
type_2fa_authenticate = "2fa_authenticate"

abbrev pub type_2fa_change : String
type_2fa_change = "2fa_change"

abbrev pub type_sign_ecdsa : String
type_sign_ecdsa = "sign_ecdsa"

abbrev pub type_p256_generate : String
type_p256_generate = "p256_generate"

abbrev pub type_agree_ecdh : String
type_agree_ecdh = "agree_ecdh"

abbrev pub type_hsm_list_keys : String
type_hsm_list_keys = "hsm_list_keys"

abbrev pub type_wka : String
type_wka = "eudiw_wka_etsi"

abbrev pub type_wia : String
type_wia = "eudiw_wia_etsi"

abbrev pub type_wi_revoke : String
type_wi_revoke = "eudiw_wi_revoke"

abbrev pub type_wi_suspend : String
type_wi_suspend = "eudiw_wi_suspend"

-- The error codes, with the texts that stand for them on the wire in `code_text`.
pub data ErrorCode : Type 0 where
  illegal_request_data unauthorized access_denied illegal_state : ErrorCode
  unsupported_request_type server_error try_later : ErrorCode

abbrev pub code_text : ErrorCode → String
code_text illegal_request_data = "ILLEGAL_REQUEST_DATA"
code_text unauthorized = "UNAUTHORIZED"
code_text access_denied = "ACCESS_DENIED"
code_text illegal_state = "ILLEGAL_STATE"
code_text unsupported_request_type = "UNSUPPORTED_REQUEST_TYPE"
code_text server_error = "SERVER_ERROR"
code_text try_later = "TRY_LATER"

pub record R2psError : Type 0 where
  pub code : ErrorCode
  pub msg : String

-- `&R2PSError{Code: code, Msg: msg}`.
abbrev pub failure : ErrorCode → String → R2psError
failure c m = record { code = c; msg = m }
