-- ===== src/Client/Login.antt =====
-- A client whose transport is the dispatcher itself: an honest registration and an honest login go
-- through. Messages are
-- not lost here, and each request has a moment of its own.
pub mod Link
pub mod Phases
pub mod Completes
pub mod Registers
use go_r2ps_service.Base.{ℕ, suc, String, ◌≡◌, Option, none, some, List, [], ◌∷◌}
use go_r2ps_service.Base.Exec.{Result, ok, err}
use go_r2ps_service.Base.Text.{utf8}
use go_r2ps_service.Client.{Client, Sending, request_of, typ_request}
use go_r2ps_service.Crypto.Jws.{verify_jws}
use go_r2ps_service.Crypto.Jwt.{sign_jws}
use go_r2ps_service.Protocol.{
  Bytes, ServiceRequest, TfaRequestData, TfaAuthResponseData, type_2fa_authenticate,
}
use go_r2ps_service.Service.Dispatcher.{
  Dispatcher, Moment, State, Stop, ResponseData, tfa_auth, tfa, fido_challenge, fido_finalize,
  response,
}
use go_r2ps_service.Service.Dispatcher.Process.{process, verification_key}
use go_r2ps_service.WebAuthn.AuthData.{PublicKey}

-- What the transport talks to: how many requests there were, and the dispatcher's state.
abbrev pub World : Type 0 → Type 0
World S = ℕ × State S

abbrev pub answer_of : Result Stop Bytes → Option Bytes
answer_of (ok bytes) = some bytes
answer_of (err e) = none

abbrev pub direct :
    {S M : Type 0} → Dispatcher S M → (ℕ → Moment) → Bytes → World S → Option Bytes × World S
direct d moments body (n, s) = let r = process d (moments n) body s in (answer_of r.0, (suc n, r.1))

module _ {K J C N S M : Type 0} (c : Client K J C N (World S)) (d : Dispatcher S M)
    (t : Moment) where
  -- A second-factor request of the client that reaches the dispatcher: what the client writes in
  -- JSON and signs, the dispatcher verifies and reads.
  pub record IsSent (u : Sending) (kind id : String) (x : TfaRequestData) : Type 0 where
    pub data_bytes : Bytes
    pub marshalled_tfa : c.codec.marshal_tfa x ≡ some data_bytes
    pub read_tfa : d.codec.parse_tfa data_bytes ≡ some x
    pub bytes : Bytes
    pub marshalled : c.codec.marshal_request (request_of c u kind id data_bytes) ≡ some bytes
    pub read : d.codec.parse_request bytes ≡ some (request_of c u kind id data_bytes)
    pub text : String
    pub signature : sign_jws c.signer bytes c.client_key "" (typ_request ∷ []) ≡ some text
    pub key : PublicKey
    pub found : verification_key d t d.client_keys (utf8 text) ≡ some key
    pub verified : verify_jws d.jose (utf8 text) key ≡ some bytes

  -- What the client reads of an answer.
  abbrev pub Reads : ResponseData → Bytes → Type 0
  Reads (tfa_auth x) payload = c.codec.unmarshal_auth payload ≡ some x
  Reads (tfa x) payload = c.codec.unmarshal_tfa payload ≡ some x
  Reads (fido_challenge x) payload = Unit
  Reads (fido_finalize x) payload = Unit

  -- An answer of the dispatcher that reaches the client.
  pub record IsAnswered (req : ServiceRequest) (x : ResponseData) : Type 0 where
    pub payload : Bytes
    pub marshalled : d.codec.marshal_data x ≡ some payload
    pub read : Reads x payload
    pub json : Bytes
    pub written : d.codec.marshal_response (response d t req payload) ≡ some json
    pub parsed : c.codec.unmarshal_response json ≡ some (response d t req payload)
    pub out : Bytes
    pub signed : d.jose.sign json ≡ some out
    pub verified : verify_jws c.jose out c.server_pub ≡ some json
