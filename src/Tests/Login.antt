-- ===== src/Tests/Login.antt =====
-- A login of a client at a dispatcher, with toy libraries that carry just these messages. The
-- record of the client stands in the in-memory store.
use go_r2ps_service.Base.{
  ℕ, zero, suc, All, ◌<◌, ◌≡◌, refl, String, true, false, Option, none, some, [], ◌∷◌, replicate,
  ◌==◌, string_eq, bytes_eq, bytes_beq, if◌then◌else◌, arith,
}
use go_r2ps_service.Base.Assoc.{lookup, insert}
use go_r2ps_service.Base.Exec.{ok}
use go_r2ps_service.Base.Int.{pos, abs, ◌-ℤ◌, ◌+ℤ◌, seconds, unix}
use go_r2ps_service.Base.Text.{utf8}
use go_r2ps_service.Base.Text.Base64
use go_r2ps_service.Protocol.{Bytes, ServiceRequest, TfaAuthResponseData}
use go_r2ps_service.Crypto.Jwt.{p256, sign_jws}
use go_r2ps_service.Crypto.Jws.{verify_jws}
use go_r2ps_service.Pake.Counter.{check, new_attempt_counter}
use go_r2ps_service.Pake.Opaque
use go_r2ps_service.Pake.Session.{Session, is_expired}
use go_r2ps_service.Store.Memory.{
  MemoryStore, memory_store, new_memory_store, put_record, get_record,
}
use go_r2ps_service.Service.Dispatcher.{
  Dispatcher, Moment, State, ResponseData, tfa_auth, tfa, fido_challenge, fido_finalize, Codec,
}
use go_r2ps_service.Service.Dispatcher.Opaque.{granted_ttl}
use go_r2ps_service.Service.Dispatcher.Process.{verification_key}
use go_r2ps_service.Service.Dispatcher.Access.{Admits}
use go_r2ps_service.Service.Dispatcher.New.{store_record_store}
use go_r2ps_service.Client.{
  Client, ClientCodec, ClientState, OpaqueClient, Sending, opaque_request, authenticate,
}
use go_r2ps_service.Client.Login.{World, direct}
use go_r2ps_service.Client.Login.Link.{IsTimely}
use go_r2ps_service.Client.Login.Completes.{CanLogin, authenticate-completes}
use go_r2ps_service.Tests.Demo

abbrev id : String
id = "AQ=="

abbrev pub nonce : String
nonce = "AAAAAAAAAAAAAAAAAAAAAA=="

abbrev login : String → Bytes → ServiceRequest
login session b = record {
  ver = "1.0";
  nonce = nonce;
  iat = pos 100;
  payload = b;
  client_id = "alice";
  context = "hsm";
  kind = "2fa_authenticate";
  tfa_session_id = session;
  jwe_hash = "";
}

abbrev evaluated : TfaAuthResponseData
evaluated = record {
  session_id = id;
  tfa_session_id = id;
  p_data = "BQ==";
  response = "BQ==";
  message = "";
  session_expiration_time = pos 0;
  task = "";
}

abbrev finalized : TfaAuthResponseData
finalized = record {
  session_id = id;
  tfa_session_id = id;
  p_data = "";
  response = "";
  message = "authenticated";
  session_expiration_time = pos 100;
  task = "";
}

abbrev pub one_of : {A : Type 0} → A → A → Bytes → A
one_of a b bytes = if bytes == 65 ∷ [] then a else b

abbrev marshal_data : ResponseData → Option Bytes
marshal_data (tfa_auth x) = some (if x.message == "" then 65 ∷ [] else 66 ∷ [])
marshal_data (tfa x) = none
marshal_data (fido_challenge x) = none
marshal_data (fido_finalize x) = none

abbrev pub server_codec : Codec
server_codec = record Demo.codec {
  parse_request = λ b. some (one_of (login "" (65 ∷ [])) (login id (66 ∷ [])) b);
  parse_tfa = λ b.
      some (one_of (opaque_request "evaluate" (3 ∷ [])) (opaque_request "finalize" (6 ∷ [])) b);
  marshal_data = marshal_data;
}

abbrev pub server_opaque : Opaque.OpaqueLibrary Bytes
server_opaque = record Demo.opaque_library {
  generate_ke2 =
      λ ke1 r. some (record { ke2 = 5 ∷ []; client_mac = 6 ∷ []; session_secret = 9 ∷ [] });
}

abbrev pub dispatcher : Dispatcher MemoryStore Bytes
dispatcher = record Demo.dispatcher {
  codec = server_codec;
  opaque_server = server_opaque;
  records = store_record_store memory_store server_opaque;
}

abbrev pub moments : ℕ → Moment
moments n = Demo.moment

abbrev state : State MemoryStore
state = record Demo.empty_state { world = (put_record "alice" "hsm" (7 ∷ []) new_memory_store).1 }

abbrev pub client_codec : ClientCodec
client_codec = record {
  marshal_tfa = λ x. some (if x.state == "evaluate" then 65 ∷ [] else 66 ∷ []);
  marshal_request = λ x. some (if x.tfa_session_id == "" then 65 ∷ [] else 66 ∷ []);
  unmarshal_response = λ b.
      some (record { ver = "1.0"; nonce = nonce; iat = pos 100; payload = b; success = some true });
  unmarshal_tfa = λ b. none;
  unmarshal_auth = λ b. some (one_of evaluated finalized b);
}

abbrev pub client_opaque : OpaqueClient ℕ Bytes
client_opaque = record {
  client = some 0;
  registration_init = λ c p. none;
  registration_finalize = λ c m. none;
  generate_ke1 = λ c p. some (p, c);
  generate_ke3 = λ c m. some (6 ∷ [], 9 ∷ []);
  serialize = λ m. m;
  has_deserializer = some tt;
  deserialize_registration_response = λ b. none;
  deserialize_ke2 = λ b. some b;
}

abbrev pub client : Client ℕ Bytes ℕ Bytes (World MemoryStore)
client = record {
  client_id = "alice";
  context = "hsm";
  client_key = 1;
  server_pub = Demo.key;
  transport = direct dispatcher moments;
  signer = record {
    curve = λ k. p256;
    sign = λ alg k o b. some (if b == 65 ∷ [] then "A" else "B");
  };
  jose = Demo.jose;
  opaque_client = client_opaque;
  codec = client_codec;
}

abbrev pub sending : Sending
sending = record { nonce = replicate 16 0; now = pos 100 }

abbrev start : ClientState (World MemoryStore)
start = record { session_id = ""; session_key = none; world = (0, state) }

replicate-All : (n : ℕ) → 0 < 256 → All (λ x. x < 256) (replicate n 0)
replicate-All zero h = tt
replicate-All (suc n) h = (h, replicate-All n h)

pub small_nonce : All (λ x. x < 256) sending.nonce
small_nonce = replicate-All 16 (omega arith)

timely : IsTimely client dispatcher Demo.moment sending
unfolding abs ◌-ℤ◌ seconds
timely = record { small = small_nonce; long = refl; near = refl }

can_login : CanLogin client dispatcher moments sending sending (3 ∷ []) 0 state
unfolding put_record get_record new_memory_store lookup insert Opaque.auth_evaluate
    Opaque.auth_finalize check new_attempt_counter Base64.encode bytes_beq sign_jws verify_jws utf8
    verification_key granted_ttl ◌+ℤ◌ unix
can_login = record {
  start = 0;
  created = refl;
  ke1 = 3 ∷ [];
  middle = 0;
  started = refl;
  small_1 = (omega arith, tt);
  client_record = record { registration_record = 7 ∷ []; credential_identifier = utf8 "hsm|alice" };
  known = refl;
  ke2_bytes = 5 ∷ [];
  mac = 6 ∷ [];
  key = 9 ∷ [];
  evaluated = refl;
  small_2 = (omega arith, tt);
  readable = refl;
  ke2 = 5 ∷ [];
  deserialized = refl;
  ke3 = 6 ∷ [];
  finished = refl;
  small_3 = (omega arith, tt);
  confirmed = refl;
  admitted = refl;
  new = refl;
  timely_1 = timely;
  timely_2 = timely;
  sent_1 = record {
    data_bytes = 65 ∷ [];
    marshalled_tfa = refl;
    read_tfa = refl;
    bytes = 65 ∷ [];
    marshalled = refl;
    read = refl;
    text = "A";
    signature = refl;
    key = Demo.key;
    found = refl;
    verified = refl;
  };
  answered_1 = record {
    payload = 65 ∷ [];
    marshalled = refl;
    read = refl;
    json = 65 ∷ [];
    written = refl;
    parsed = refl;
    out = 65 ∷ [];
    signed = refl;
    verified = refl;
  };
  unexpired = refl;
  sent_2 = record {
    data_bytes = 66 ∷ [];
    marshalled_tfa = refl;
    read_tfa = refl;
    bytes = 66 ∷ [];
    marshalled = refl;
    read = refl;
    text = "B";
    signature = refl;
    key = Demo.key;
    found = refl;
    verified = refl;
  };
  answered_2 = record {
    payload = 66 ∷ [];
    marshalled = refl;
    read = refl;
    json = 66 ∷ [];
    written = refl;
    parsed = refl;
    out = 66 ∷ [];
    signed = refl;
    verified = refl;
  };
}

authenticate-completes_example :
    (y : Session) × (v : State MemoryStore) × (authenticate client sending sending (3 ∷ []) start
      ≡ (
        ok tt,
        record { session_id = Base64.encode (1 ∷ []); session_key = some (9 ∷ []); world = (2, v) },
      ))
    × (y.client_id ≡ "alice")
    × (y.session_key ≡ 9 ∷ [])
    × ((later : Moment) (req : ServiceRequest)
        → req.tfa_session_id ≡ Base64.encode (1 ∷ [])
        → req.context ≡ "hsm"
        → is_expired later.now y ≡ false
        → Admits later req v.sessions y)
unfolding can_login
authenticate-completes_example =
    authenticate-completes client dispatcher moments sending sending (3 ∷ []) 0 start state refl
      can_login refl
