-- ===== src/Tests/Exchange.antt =====
-- A client with toy libraries, whose transport answers a request with its own body and keeps what
-- was sent.
use go_r2ps_service.Base.{ℕ, some, none, List, [], ◌∷◌}
use go_r2ps_service.Base.Exec.{ok, ◌>>=◌, pure, require, gets, modify}
use go_r2ps_service.Base.Int.{pos}
use go_r2ps_service.Base.Text.{utf8}
use go_r2ps_service.Base.Text.Base64
use go_r2ps_service.Protocol.{Bytes}
use go_r2ps_service.Crypto.Jws.{JoseLibrary, verify_jws}
use go_r2ps_service.Crypto.Jwt.{JoseSigner, p256, sign_jws}
use go_r2ps_service.Client.{
  Client, ClientState, ClientCodec, OpaqueClient, Sending, new_client, send, exchange, send_2fa,
  call_service, authenticate, wrapped,
}
use go_r2ps_service.Client.Laws.{Called, Login, call_service-Called, authenticate-Login}

abbrev signer : JoseSigner ℕ
signer = record { curve = λ k. p256; sign = λ alg k o b. some "jws" }

abbrev jose : JoseLibrary Bytes
jose = record {
  parse_signed = λ b. some b;
  key_ids = λ b. [];
  verify = λ b k. some b;
  sign = λ b. some b;
}

abbrev toy_codec : ClientCodec
toy_codec = record {
  marshal_tfa = λ tfa. some (7 ∷ []);
  marshal_request = λ req. some req.payload;
  unmarshal_response =
      λ b. some (record { ver = "1.0"; nonce = ""; iat = pos 0; payload = b; success = none });
  unmarshal_tfa = λ b. some (record { p_data = ""; response = ""; message = "" });
  unmarshal_auth = λ b. some (record {
    session_id = "s1";
    tfa_session_id = "s1";
    p_data = "";
    response = "";
    message = "";
    session_expiration_time = pos 0;
    task = "";
  });
}

abbrev toy_opaque : OpaqueClient ℕ Bytes
toy_opaque = record {
  client = some 0;
  registration_init = λ c p. some (p, c);
  registration_finalize = λ c m. some m;
  generate_ke1 = λ c p. some (p, c);
  generate_ke3 = λ c m. some (m, 9 ∷ []);
  serialize = λ m. m;
  has_deserializer = some tt;
  deserialize_registration_response = λ b. some b;
  deserialize_ke2 = λ b. some b;
}

abbrev client : Client ℕ Bytes ℕ Bytes (List Bytes)
client = record {
  client_id = "alice";
  context = "wallet";
  client_key = 1;
  server_pub = record { x = 1; y = 2 };
  transport = λ body sent. (some body, body ∷ sent);
  signer = signer;
  jose = jose;
  opaque_client = toy_opaque;
  codec = toy_codec;
}

abbrev sending : Sending
sending = record { nonce = []; now = pos 0 }

abbrev logged_in : ClientState (List Bytes)
logged_in = record { session_id = "s1"; session_key = some (9 ∷ []); world = [] }

abbrev jws : Bytes
jws = 0x6A ∷ (0x77 ∷ (0x73 ∷ []))

call_service-Called_example :
    Called client sending "sign_ecdsa"
      (5 ∷ [])
      logged_in
      (ok jws, record logged_in { world = jws ∷ [] })
unfolding call_service exchange send ◌>>=◌ pure require gets sign_jws verify_jws utf8
call_service-Called_example = call_service-Called client sending "sign_ecdsa" (5 ∷ []) logged_in

authenticate-Login_example :
    Login client sending sending
      (3 ∷ [])
      (new_client [])
      (ok tt, record { session_id = "s1"; session_key = some (9 ∷ []); world = jws ∷ (jws ∷ []) })
unfolding authenticate exchange send_2fa send wrapped ◌>>=◌ pure require modify sign_jws verify_jws
    utf8 Base64.decode
authenticate-Login_example = authenticate-Login client sending sending (3 ∷ []) (new_client [])
