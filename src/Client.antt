-- ===== src/Client.antt =====
-- pkg/client/client.go over the OPAQUE client, encoding/json and the transport, which are
-- parameters: `K` is the type of signing keys, `J` that of parsed objects, `C` that of OPAQUE
-- clients, `M` that of OPAQUE messages and `W` what the transport talks to. An error is its texts
-- from the outermost to the innermost; those of a library are left out.
pub mod Laws
pub mod Login
use go_r2ps_service.Base.{String, Option, some, none, List, [], ◌∷◌}
use go_r2ps_service.Base.Exec.{Result, ok, err, Exec, ◌>>=◌, ◌>>◌, pure, require, modify, gets}
use go_r2ps_service.Base.Int.{ℤ, pos}
use go_r2ps_service.Base.Text.{utf8}
use go_r2ps_service.Base.Text.Base64
use go_r2ps_service.Crypto.Jws.{JoseLibrary, verify_jws}
use go_r2ps_service.Crypto.Jwt.{JoseSigner, sign_jws}
use go_r2ps_service.Protocol.{
  Bytes, ServiceRequest, ServiceResponse, TfaRequestData, TfaResponseData, TfaAuthResponseData,
  protocol_version, tfa_mode_opaque, state_evaluate, state_finalize, type_2fa_registration,
  type_2fa_authenticate,
}
use go_r2ps_service.WebAuthn.AuthData.{PublicKey}

-- A call that leaves a secret in the client returns the client too.
pub record OpaqueClient (C M : Type 0) : Type 0 where
  pub client : Option C
  pub registration_init : C → Bytes → Option (M × C)
  pub registration_finalize : C → M → Option M
  pub generate_ke1 : C → Bytes → Option (M × C)
  pub generate_ke3 : C → M → Option (M × Bytes)
  pub serialize : M → Bytes
  pub has_deserializer : Option (Unit {0})
  pub deserialize_registration_response : Bytes → Option M
  pub deserialize_ke2 : Bytes → Option M

pub record ClientCodec : Type 0 where
  pub marshal_tfa : TfaRequestData → Option Bytes
  pub marshal_request : ServiceRequest → Option Bytes
  pub unmarshal_response : Bytes → Option ServiceResponse
  pub unmarshal_tfa : Bytes → Option TfaResponseData
  pub unmarshal_auth : Bytes → Option TfaAuthResponseData

-- The fields of `Client` that `NewClient` sets, with the parameters.
pub record Client (K J C M W : Type 0) : Type 0 where
  pub client_id : String
  pub context : String
  pub client_key : K
  pub server_pub : PublicKey
  pub transport : Bytes → W → Option Bytes × W
  pub signer : JoseSigner K
  pub jose : JoseLibrary J
  pub opaque_client : OpaqueClient C M
  pub codec : ClientCodec

-- The fields that `Authenticate` sets, with what the transport talks to.
pub record ClientState (W : Type 0) : Type 0 where
  pub session_id : String
  pub session_key : Option Bytes
  pub world : W

-- What `NewClient` leaves of them.
abbrev pub new_client : {W : Type 0} → W → ClientState W
new_client w = record { session_id = ""; session_key = none; world = w }

-- The random bytes and the clock, in seconds, for one request.
pub record Sending : Type 0 where
  pub nonce : Bytes
  pub now : ℤ

abbrev pub typ_request : String
typ_request = "r2ps-request+jwt"

-- A request of OPAQUE with the bytes of its message.
abbrev pub opaque_request : String → Bytes → TfaRequestData
opaque_request state message = record {
  protocol = tfa_mode_opaque;
  tfa_mode = "";
  state = state;
  p_data = Base64.encode message;
  request = "";
  authorization = "";
  authorization_type = "";
  session_duration = pos 0;
}

abbrev pub Act : Type 0 → Type 0 → Type 0
Act W A = Exec (ClientState W) (List String) A

abbrev pub wrap_error : {A : Type 0} → String → Result (List String) A → Result (List String) A
wrap_error msg (ok a) = ok a
wrap_error msg (err e) = err (msg ∷ e)

-- `if err != nil { return fmt.Errorf("...: %w", err) }`.
unfoldable pub wrapped : {W A : Type 0} → String → Act W A → Act W A
wrapped msg m s = (wrap_error msg (m s).0, (m s).1)

module _ {K J C M W : Type 0} (c : Client K J C M W) where
  abbrev pub request_of : Sending → String → String → Bytes → ServiceRequest
  request_of t kind session_id data_bytes = record {
    ver = protocol_version;
    nonce = Base64.encode t.nonce;
    iat = t.now;
    payload = data_bytes;
    client_id = c.client_id;
    context = c.context;
    kind = kind;
    tfa_session_id = session_id;
    jwe_hash = "";
  }

  abbrev pub sent : ClientState W → Option Bytes × W → Result (List String) Bytes × ClientState W
  sent s (some body, w) = (ok body, record s { world = w })
  sent s (none, w) = (err ("transport" ∷ []), record s { world = w })

  -- `c.transport.Send`, with its error.
  unfoldable pub send : Bytes → Act W Bytes
  send body s = sent s (c.transport body s.world)

  -- What `CallService` and `send2FA` do with a request, with their own words for two errors.
  unfoldable pub exchange : String → String → ServiceRequest → Act W Bytes
  exchange marshal_error verify_error req = do
    request ← require (c.codec.marshal_request req) (marshal_error ∷ [])
    signed ←
        require (sign_jws c.signer request c.client_key "" (typ_request ∷ [])) ("sign request" ∷ [])
    body ← send (utf8 signed)
    payload ← require (verify_jws c.jose body c.server_pub) (verify_error ∷ [])
    response ← require (c.codec.unmarshal_response payload) ("unmarshal response" ∷ [])
    pure response.payload

  -- `send2FA`.
  unfoldable pub send_2fa : Sending → String → String → TfaRequestData → Act W Bytes
  send_2fa t kind session_id tfa = do
    data_bytes ← require (c.codec.marshal_tfa tfa) ("marshal 2FA request" ∷ [])
    exchange "marshal request" "verify response" (request_of t kind session_id data_bytes)

  -- `CallService`.
  unfoldable pub call_service : Sending → String → Bytes → Act W Bytes
  call_service t kind data_bytes = do
    key ← gets (λ s. s.session_key)
    _ ← require key ("not authenticated" ∷ [])
    session_id ← gets (λ s. s.session_id)
    exchange "marshal service request" "verify response JWS"
        (request_of t kind session_id data_bytes)

  -- `Register`, with the randomness and the clock of its two requests.
  unfoldable pub register : Sending → Sending → Bytes → Act W (Unit {0})
  register t u password = do
    client ← require c.opaque_client.client ("create OPAQUE client" ∷ [])
    started ← require (c.opaque_client.registration_init client password) ("registration init" ∷ [])
    resp ← wrapped "registration evaluate" (
        send_2fa t type_2fa_registration ""
          (opaque_request state_evaluate (c.opaque_client.serialize started.0)))
    tfa ← require (c.codec.unmarshal_tfa resp) ("unmarshal response" ∷ [])
    _ ← require c.opaque_client.has_deserializer ("create deserializer" ∷ [])
    message ← require (Base64.decode tfa.response) ("decode response" ∷ [])
    reg_resp ←
        require (c.opaque_client.deserialize_registration_response message)
          ("deserialize registration response" ∷ [])
    rec ←
        require (c.opaque_client.registration_finalize started.1 reg_resp)
          ("registration finalize" ∷ [])
    _ ←
        send_2fa u type_2fa_registration ""
          (opaque_request state_finalize (c.opaque_client.serialize rec))
    pure tt

  -- `Authenticate`, with the randomness and the clock of its two requests.
  unfoldable pub authenticate : Sending → Sending → Bytes → Act W (Unit {0})
  authenticate t u password = do
    client ← require c.opaque_client.client ("create OPAQUE client" ∷ [])
    started ← require (c.opaque_client.generate_ke1 client password) ("generate KE1" ∷ [])
    resp ← wrapped "auth evaluate" (
        send_2fa t type_2fa_authenticate ""
          (opaque_request state_evaluate (c.opaque_client.serialize started.0)))
    auth ← require (c.codec.unmarshal_auth resp) ("unmarshal auth response" ∷ [])
    _ ← require c.opaque_client.has_deserializer ("create deserializer" ∷ [])
    message ← require (Base64.decode auth.response) ("decode KE2" ∷ [])
    ke2 ← require (c.opaque_client.deserialize_ke2 message) ("deserialize KE2" ∷ [])
    finished ← require (c.opaque_client.generate_ke3 started.1 ke2) ("generate KE3" ∷ [])
    _ ← wrapped "auth finalize" (
        send_2fa u type_2fa_authenticate auth.tfa_session_id
          (opaque_request state_finalize (c.opaque_client.serialize finished.0)))
    modify (λ s. record s { session_id = auth.tfa_session_id; session_key = some finished.1 })
