-- ===== src/Tests/Registration.antt =====
-- A registration of the client of Login, in an empty store.
use go_r2ps_service.Base.{
  bytes_eq, ℕ, ◌≡◌, refl, Option, none, some, [], ◌∷◌, ◌==◌, string_eq, bytes_beq, if◌then◌else◌,
  arith,
}
use go_r2ps_service.Base.Exec.{ok}
use go_r2ps_service.Base.Int.{pos, abs, ◌-ℤ◌, seconds, unix}
use go_r2ps_service.Base.Text.{utf8}
use go_r2ps_service.Base.Text.Base64
use go_r2ps_service.Client.{Client, ClientState, register}
use go_r2ps_service.Client.Login.{World, direct}
use go_r2ps_service.Client.Login.Link.{IsTimely}
use go_r2ps_service.Client.Login.Registers.{CanRegister, record_of, register-completes}
use go_r2ps_service.Crypto.Jws.{verify_jws}
use go_r2ps_service.Crypto.Jwt.{sign_jws}
use go_r2ps_service.Pake.Opaque
use go_r2ps_service.Protocol.{Bytes, ServiceRequest, TfaResponseData}
use go_r2ps_service.Service.Dispatcher.{
  Dispatcher, ResponseData, State, tfa, tfa_auth, fido_challenge, fido_finalize,
}
use go_r2ps_service.Service.Dispatcher.Process.{verification_key}
use go_r2ps_service.Store.Memory.{MemoryStore}
use go_r2ps_service.Tests.Demo
use go_r2ps_service.Tests.Login

abbrev registration : Bytes → ServiceRequest
registration b = record {
  ver = "1.0";
  nonce = Login.nonce;
  iat = pos 100;
  payload = b;
  client_id = "alice";
  context = "hsm";
  kind = "2fa_registration";
  tfa_session_id = "";
  jwe_hash = "";
}

abbrev responded : TfaResponseData
responded = record { p_data = "Aw=="; response = "Aw=="; message = "" }

abbrev succeeded : TfaResponseData
succeeded = record { p_data = ""; response = ""; message = "success" }

abbrev marshal_data : ResponseData → Option Bytes
marshal_data (tfa x) = some (if x.message == "" then 65 ∷ [] else 66 ∷ [])
marshal_data (tfa_auth x) = none
marshal_data (fido_challenge x) = none
marshal_data (fido_finalize x) = none

abbrev dispatcher : Dispatcher MemoryStore Bytes
dispatcher = record Login.dispatcher {
  codec = record Login.server_codec {
    parse_request = λ b. some (registration b);
    marshal_data = marshal_data;
  };
}

abbrev client : Client ℕ Bytes ℕ Bytes (World MemoryStore)
client = record Login.client {
  transport = direct dispatcher Login.moments;
  codec = record Login.client_codec {
    marshal_request = λ x. some x.payload;
    unmarshal_tfa = λ b. some (Login.one_of responded succeeded b);
  };
  opaque_client = record Login.client_opaque {
    registration_init = λ c p. some (p, c);
    registration_finalize = λ c m. some (6 ∷ []);
    deserialize_registration_response = λ b. some b;
  };
}

abbrev start : ClientState (World MemoryStore)
start = record { session_id = ""; session_key = none; world = (0, Demo.empty_state) }

timely : IsTimely client dispatcher Demo.moment Login.sending
unfolding abs ◌-ℤ◌ seconds
timely = record { small = Login.small_nonce; long = refl; near = refl }

can_register : CanRegister client dispatcher Login.moments Login.sending Login.sending (3 ∷ []) 0
unfolding Opaque.registration_response Base64.encode bytes_beq sign_jws verify_jws utf8
    verification_key unix
can_register = record {
  start = 0;
  created = refl;
  request = 3 ∷ [];
  middle = 0;
  started = refl;
  small_1 = (omega arith, tt);
  timely_1 = timely;
  sent_1 = record {
    data_bytes = 65 ∷ [];
    marshalled_tfa = refl;
    read_tfa = refl;
    bytes = 65 ∷ [];
    marshalled = refl;
    read = refl;
    text = "A";
    signature = refl;
    key = Demo.key;
    found = refl;
    verified = refl;
  };
  resp = 3 ∷ [];
  responded = refl;
  small_2 = (omega arith, tt);
  answered_1 = record {
    payload = 65 ∷ [];
    marshalled = refl;
    read = refl;
    json = 65 ∷ [];
    written = refl;
    parsed = refl;
    out = 65 ∷ [];
    signed = refl;
    verified = refl;
  };
  readable = refl;
  response = 3 ∷ [];
  deserialized = refl;
  made = 6 ∷ [];
  finished = refl;
  small_3 = (omega arith, tt);
  timely_2 = timely;
  sent_2 = record {
    data_bytes = 66 ∷ [];
    marshalled_tfa = refl;
    read_tfa = refl;
    bytes = 66 ∷ [];
    marshalled = refl;
    read = refl;
    text = "B";
    signature = refl;
    key = Demo.key;
    found = refl;
    verified = refl;
  };
  message = 6 ∷ [];
  read = refl;
  answered_2 = record {
    payload = 66 ∷ [];
    marshalled = refl;
    read = refl;
    json = 66 ∷ [];
    written = refl;
    parsed = refl;
    out = 66 ∷ [];
    signed = refl;
    verified = refl;
  };
}

register-completes_example :
    (v : State MemoryStore) × (register client Login.sending Login.sending (3 ∷ []) start
      ≡ (ok tt, record start { world = (2, v) }))
    × (dispatcher.records.get_record "alice" "hsm" v.world
        ≡ some (record_of client dispatcher (6 ∷ [])))
    × (v.sessions ≡ [])
    × (v.counter ≡ Demo.empty_state.counter)
unfolding can_register
register-completes_example =
    register-completes client dispatcher Login.moments Login.sending Login.sending (3 ∷ []) 0 start
      Demo.empty_state refl refl can_register refl refl
