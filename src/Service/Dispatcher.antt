-- ===== src/Service/Dispatcher.antt =====
-- internal/service/dispatcher.go: what a dispatcher is made of, its state, and its small parts.
-- `S` is the state of the store and the handlers, `M` the objects of the OPAQUE and JOSE
-- libraries. All clock readings of one request are one instant, and the random values that a
-- request draws are given to it (`Moment`). Metrics and logging are left out.
pub mod New
pub mod Registered
pub mod Opaque
pub mod Fido2
pub mod Process
pub mod Access
pub mod Lifetime
pub mod Quiet
pub mod Sessions
use go_r2ps_service.Base.{
  ℕ, zero, suc, String, Bool, true, false, Option, none, some, List, [], ◌∷◌, ◌==◌, string_eq,
  if◌then◌else◌, ◌*◌, nat_beq, ◌||◌,
}
use go_r2ps_service.Base.Assoc.{Assoc, insert}
use go_r2ps_service.Base.Exec.{
  Result, ok, err, Exec, ◌>>=◌, ◌>>◌, pure, fail, gets, require, modify, guard,
}
use go_r2ps_service.Base.Int.{ℤ, pos, unix, second}
use go_r2ps_service.Base.Text.{utf8}
use go_r2ps_service.Crypto.Jws.{JoseLibrary}
use go_r2ps_service.Pake.Counter.{
  AttemptCounter, new_attempt_counter, check, record_failure, record_success,
}
use go_r2ps_service.Pake.Opaque.{OpaqueLibrary, ClientRecord}
use go_r2ps_service.Pake.Session.{Session, SessionStore, new_session_store, get, create}
use go_r2ps_service.Protocol.{
  Bytes, ServiceRequest, ServiceResponse, TfaRequestData, TfaResponseData, TfaAuthResponseData,
  R2psError, ErrorCode, failure, server_error, access_denied, type_2fa_registration,
  protocol_version, type_2fa_authenticate, type_create_session, type_2fa_change, type_2fa_update,
}
use go_r2ps_service.Store.{Store, StoreError}
use go_r2ps_service.Store.Memory.{joined}
use go_r2ps_service.WebAuthn.AuthData.{PublicKey}
use go_r2ps_service.WebAuthn.Token.{TokenEncryptor}
use go_r2ps_service.WebAuthn.Verify.{Primitives}

-- handler.go: a service type with its mode and its work, which may change the state `S`.
pub record Handler (S : Type 0) : Type 0 where
  pub kind : String
  pub mode : String
  pub handle : ℤ → String → Bytes → Exec S String Bytes

abbrev pub mode_1fa : String
mode_1fa = "1fa"

abbrev pub mode_2fa : String
mode_2fa = "2fa"

pub record RecordStore (S M : Type 0) : Type 0 where
  pub get_record : String → String → S → Option (ClientRecord M)
  pub put_record : String → String → ClientRecord M → Exec S StoreError (Unit {0})

pub record EcdsaSignRequest : Type 0 where
  pub kid : String
  pub tbs_hash : String

pub record FidoChallengeResponse : Type 0 where
  pub challenge : String
  pub token : String
  pub user_verification : String

pub record FidoRegisterRequest : Type 0 where
  pub credential_id : String
  pub attestation_object : String
  pub client_data : String

pub record FidoAssertionField : Type 0 where
  pub credential_id : String
  pub authenticator_data : String
  pub client_data : String
  pub signature : String

pub record FidoFinalizeRequest : Type 0 where
  pub client_epub : String
  pub token : String
  pub task : String
  pub assertion : FidoAssertionField

pub record FidoFinalizeResponse : Type 0 where
  pub server_epub : String
  pub tfa_session_id : String
  pub task : String
  pub session_expiration_time : ℤ

-- The data of a 2FA response, before it is marshalled.
pub data ResponseData : Type 0 where
  tfa : TfaResponseData → ResponseData
  tfa_auth : TfaAuthResponseData → ResponseData
  fido_challenge : FidoChallengeResponse → ResponseData
  fido_finalize : FidoFinalizeResponse → ResponseData

-- What the dispatcher uses of encoding/json, typed by the structures that it reads and writes.
pub record Codec : Type 0 where
  pub parse_request : Bytes → Option ServiceRequest
  pub parse_tfa : Bytes → Option TfaRequestData
  pub parse_sign : Bytes → Option EcdsaSignRequest
  pub parse_fido_register : Bytes → Option FidoRegisterRequest
  pub parse_fido_finalize : Bytes → Option FidoFinalizeRequest
  pub marshal_data : ResponseData → Option Bytes
  pub marshal_response : ServiceResponse → Option Bytes
  pub marshal_string : String → Bytes
  pub is_json : Bytes → Bool

-- A key pair that was generated for one exchange: its public point in SEC1 form, and the shared
-- secret with a peer.
pub record EphemeralKey : Type 0 where
  pub epub_bytes : Bytes
  pub ecdh : PublicKey → Option Bytes

-- fido2.go: the configuration of the FIDO2 flows, with the primitives that they need beyond those
-- of the ceremonies.
pub record Fido2Handler (S : Type 0) : Type 0 where
  pub store : Store S
  pub token_encryptor : TokenEncryptor
  pub rp_id : String
  pub allowed_origins : List String
  pub primitives : Primitives
  pub marshal_point : PublicKey → Bytes
  pub unmarshal_point : Bytes → Option PublicKey
  pub hkdf : Bytes → Bytes → Bytes → Option Bytes

pub record Dispatcher (S M : Type 0) : Type 0 where
  pub codec : Codec
  pub jose : JoseLibrary M
  pub sha256 : Bytes → Bytes
  pub server_public_key : PublicKey
  pub opaque_server : OpaqueLibrary M
  pub records : RecordStore S M
  pub client_keys : Option (String → Option PublicKey)
  pub handlers : Assoc String (Handler S)
  pub session_ttl : ℤ
  pub iat_max_skew : ℕ
  pub fido2 : Option (Fido2Handler S)

-- What changes from request to request.
pub record State (S : Type 0) : Type 0 where
  pub sessions : SessionStore
  pub counter : AttemptCounter
  pub world : S

-- The instant of a request and the random values that it may draw.
pub record Moment : Type 0 where
  pub now : ℤ
  pub session_bytes : Bytes
  pub challenge_bytes : Bytes
  pub token_nonce : Bytes
  pub ephemeral : Option EphemeralKey

-- How a request stops early: with a protocol error, or with a panic of the Go runtime, which
-- net/http catches.
pub data Stop : Type 0 where
  refused : R2psError → Stop
  crashed : Stop

abbrev pub refusal : ErrorCode → String → Stop
refusal code msg = refused (failure code msg)

abbrev pub Act {ℓ} : Type 0 → Type ℓ → Type ℓ
Act S A = Exec (State S) Stop A

-- The handler map of `NewDispatcher`: of two handlers of one type the later one stays.
unfoldable pub handler_map :
    {S : Type 0} → Assoc String (Handler S) → List (Handler S) → Assoc String (Handler S)
handler_map m [] = m
handler_map m (h ∷ hs) = handler_map (insert h.kind h m) hs

abbrev pub is_registration : String → Bool
is_registration kind = kind == type_2fa_registration

abbrev pub is_authentication : String → Bool
is_authentication kind = kind == type_2fa_authenticate || kind == type_create_session

abbrev pub is_change : String → Bool
is_change kind = kind == type_2fa_change || kind == type_2fa_update

-- `[]byte(req.Context + "|" + req.ClientID)`.
abbrev pub credential_id_of : ServiceRequest → Bytes
credential_id_of req = utf8 (joined req.context req.client_id)

module _ {S M : Type 0} (d : Dispatcher S M) (t : Moment) where
  abbrev pub response : ServiceRequest → Bytes → ServiceResponse
  response req payload = record {
    ver = protocol_version;
    nonce = req.nonce;
    iat = unix t.now;
    payload = payload;
    success = some true;
  }

  -- Marshalling and signing a response, as both `signResponse` and `handleService` end.
  unfoldable pub send : ServiceRequest → Bytes → Act S Bytes
  send req payload = do
    json ←
        require (d.codec.marshal_response (response req payload))
          (refusal server_error "marshal response failed")
    require (d.jose.sign json) (refusal server_error "sign response failed")

  -- `signResponse`.
  unfoldable pub sign_response : ServiceRequest → ResponseData → Act S Bytes
  sign_response req x = do
    payload ← require (d.codec.marshal_data x) (refusal server_error "marshal data failed")
    send req payload

module _ {S : Type 0} (t : Moment) (req : ServiceRequest) where
  -- The lock-out test that opens both authentications: what `Check` forgets stays forgotten.
  unfoldable pub check_lockout : Act S (Unit {0})
  check_lockout s =
      let (counter, admitted) = check t.now req.client_id req.context req.context s.counter in
      guard admitted (refusal access_denied "account locked: too many failed attempts")
        (record s { counter = counter })

  unfoldable pub count_failure : State S → State S
  count_failure s = record s {
    counter = (record_failure t.now req.client_id req.context req.context s.counter).0;
  }

  unfoldable pub count_success : State S → State S
  count_success s = record s {
    counter = record_success req.client_id req.context req.context s.counter;
  }

-- `d.sessions.Get`.
unfoldable pub find_session : {S : Type 0} → Moment → String → State S → Option Session
find_session t id s = get t.now id s.sessions

-- `d.sessions.Create`, with the error that both callers give.
unfoldable pub open_session : {S : Type 0} → Session → Act S (Unit {0})
open_session x = do
  made ← gets (λ s. create x s.sessions)
  sessions ← require made (refusal server_error "session creation failed")
  modify (λ s. record s { sessions = sessions })

-- A call that works on the state of the store and the handlers, with its result.
abbrev pub in_world : {S : Type 0} {E A : Type 0} → Exec S E A → Act S (Result E A)
in_world m s = let (r, w) = m s.world in (ok r, record s { world = w })

abbrev pub require_ok : {S : Type 0} {E A : Type 0} → Result E A → Stop → Act S A
require_ok (ok a) stop = pure a
require_ok (err e) stop = fail stop
