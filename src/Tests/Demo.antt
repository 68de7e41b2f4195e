-- ===== src/Tests/Demo.antt =====
-- A small dispatcher with toy libraries: a body is one number that names a request.
use go_r2ps_service.Base.{
  String, Bool, true, false, Option, none, some, [], ◌∷◌, ◌==◌, nat_eq, bytes_eq, if◌then◌else◌,
  replicate, ◌++◌,
}
use go_r2ps_service.Base.Exec.{ok, err}
use go_r2ps_service.Base.Int.{pos}
use go_r2ps_service.Pake.Counter.{new_attempt_counter}
use go_r2ps_service.Pake.Opaque.{OpaqueLibrary}
use go_r2ps_service.Pake.Session.{Session}
use go_r2ps_service.Protocol.{Bytes, ServiceRequest, TfaRequestData}
use go_r2ps_service.Crypto.Jws.{JoseLibrary}
use go_r2ps_service.Store.Memory.{MemoryStore, new_memory_store}
use go_r2ps_service.WebAuthn.AuthData.{PublicKey}
use go_r2ps_service.WebAuthn.Verify.{Primitives, Credential, AssertionData}
use go_r2ps_service.Service.Dispatcher.{Codec, Dispatcher, Moment, State, EcdsaSignRequest, Handler}
use go_r2ps_service.Service.Handlers.{Backend, ecdsa_handler}

abbrev pub key : PublicKey
key = record { x = 1; y = 2 }

abbrev pub request : String → ServiceRequest
request kind = record {
  ver = "1.0";
  nonce = "AAAAAAAAAAAAAAAAAAAAAA==";
  iat = pos 100;
  payload = 7 ∷ [];
  client_id = "alice";
  context = "hsm";
  kind = kind;
  tfa_session_id = "s";
  jwe_hash = "";
}

abbrev pub login_data : TfaRequestData
login_data = record {
  protocol = "opaque";
  tfa_mode = "";
  state = "finalize";
  p_data = "";
  request = "";
  authorization = "";
  authorization_type = "";
  session_duration = pos 0;
}

abbrev pub zero_hash : Bytes
zero_hash = replicate 32 0

-- The base64 text of 32 zero bytes.
abbrev pub zero_hash_text : String
zero_hash_text = "AAAAAAAAAAAAAAAAAAAAAAAAAAAAAAAAAAAAAAAAAAA="

abbrev pub sign_request : EcdsaSignRequest
sign_request = record { kid = "k1"; tbs_hash = zero_hash_text }

abbrev pub read_body : Bytes → Option ServiceRequest
read_body b =
    if b == 1 ∷ []
    then some (request "2fa_authenticate")
    else if b == 2 ∷ []
    then some (request "sign_ecdsa")
    else if b == 3 ∷ []
    then some (request "2fa_change")
    else none

abbrev pub codec : Codec
codec = record {
  parse_request = read_body;
  parse_tfa = λ b. some login_data;
  parse_sign = λ b. some sign_request;
  parse_fido_register = λ b. none;
  parse_fido_finalize = λ b. none;
  marshal_data = λ x. some [];
  marshal_response = λ x. some x.payload;
  marshal_string = λ x. [];
  is_json = λ b. false;
}

abbrev pub jose : JoseLibrary Bytes
jose = record {
  parse_signed = λ b. some b;
  key_ids = λ b. [];
  verify = λ b k. some b;
  sign = λ b. some b;
}

abbrev pub opaque_library : OpaqueLibrary Bytes
opaque_library = record {
  deserialize_request = λ b. some b;
  deserialize_record = λ b. some b;
  deserialize_ke1 = λ b. some b;
  deserialize_ke3 = λ b. some b;
  serialize = λ b. b;
  respond = λ b id. some b;
  generate_ke2 = λ b r. none;
  login_finish = λ b mac. mac == b;
  get_fake_record = λ id. record { registration_record = id; credential_identifier = id };
}

abbrev pub backend : Backend MemoryStore
backend = record {
  sign = λ kid hash s. (ok (9 ∷ []), s);
  generate_ec_key = λ curve s. (err "no keys", s);
  ecdh = λ kid peer s. (err "no keys", s);
  list_keys = λ curves s. ok [];
}

abbrev pub dispatcher : Dispatcher MemoryStore Bytes
dispatcher = record {
  codec = codec;
  jose = jose;
  sha256 = λ b. zero_hash;
  server_public_key = key;
  opaque_server = opaque_library;
  records = record {
    get_record = λ client context s. none;
    put_record = λ client context r s. (ok tt, s);
  };
  client_keys = none;
  handlers = ("sign_ecdsa", ecdsa_handler codec.parse_sign backend) ∷ [];
  session_ttl = pos 300;
  iat_max_skew = 300;
  fido2 = none;
}

abbrev pub moment : Moment
moment = record {
  now = pos 100_000_000_000;
  session_bytes = 1 ∷ [];
  challenge_bytes = 2 ∷ [];
  token_nonce = 3 ∷ [];
  ephemeral = none;
}

abbrev pub session : Bool → Session
session verified = record {
  id = "s";
  client_id = "alice";
  context = "hsm";
  session_key = [];
  client_mac = [];
  expires_at = pos 200_000_000_000;
  verified = verified;
  task = "";
}

abbrev pub state : Bool → State MemoryStore
state verified = record {
  sessions = ("s", session verified) ∷ [];
  counter = new_attempt_counter 5 (pos 900);
  world = new_memory_store;
}

abbrev pub empty_state : State MemoryStore
empty_state = record {
  sessions = [];
  counter = new_attempt_counter 5 (pos 900);
  world = new_memory_store;
}

-- Five failures, of which the last was a second ago.
abbrev pub locked_state : State MemoryStore
locked_state = record {
  sessions = [];
  counter = record {
    attempts = ("alice|hsm|hsm", record { failures = 5; locked_at = pos 99_000_000_000 }) ∷ [];
    max_fails = 5;
    lockout = pos 900_000_000_000;
  };
  world = new_memory_store;
}

abbrev pub handler : Handler MemoryStore
handler = ecdsa_handler codec.parse_sign backend

-- The payload of the answer to a signing request: the signature is no JSON text, and the toy codec
-- writes every string as no bytes.
abbrev pub signed_response : Bytes
signed_response = []

-- An authenticator data of 37 bytes, with both flags set and the count 1.
abbrev pub authenticator_bytes : Bytes
authenticator_bytes = zero_hash ++ 5 ∷ (0 ∷ (0 ∷ (0 ∷ (1 ∷ []))))

abbrev pub primitives : Primitives
primitives = record {
  parse_client_data = λ b. some (record {
    kind = "webauthn.get";
    challenge = "c";
    origin = "https://o";
    cross_origin = false;
  });
  sha256 = λ b. zero_hash;
  is_on_curve = λ x y. true;
  ecdsa_verify = λ k hash signature. true;
}

abbrev pub assertion : AssertionData
assertion = record {
  credential_id = 1 ∷ [];
  authenticator_data = authenticator_bytes;
  client_data_json = [];
  signature = [];
}

abbrev pub credential : Credential
credential = record { credential_id = 1 ∷ []; public_key = key; sign_count = 0 }
