-- ===== src/Server/Main.antt =====
-- cmd/server/main.go: `main` up to the start of its listeners. A `none` of the environment's
-- constructors, and an error of one, is an exit of the process. The constructors that connect, to
-- the HSM and to MongoDB, are given.
pub mod Started
use go_r2ps_service.Base.{
  ℕ, ◌*◌, ◌/◌, ◌%◌, String, Bool, true, false, Option, none, some, List, [], ◌∷◌, ◌==◌, string_eq,
  if◌then◌else◌,
}
use go_r2ps_service.Base.Exec.{Result, ok, err, Exec}
use go_r2ps_service.Base.Int.{ℤ, pos, second}
use go_r2ps_service.Base.Text.Base64.{char_at}
use go_r2ps_service.Admin.{Options}
use go_r2ps_service.Crypto.Jws.{JoseLibrary}
use go_r2ps_service.Hsm.{Pkcs11Config}
use go_r2ps_service.Modes.{Role, wscd, wsca, admin, has, parse_roles}
use go_r2ps_service.Pake.Opaque.{OpaqueLibrary}
use go_r2ps_service.Protocol.{Bytes}
use go_r2ps_service.Server.{
  Environment, env_or, env_int, env_duration, wallet_provider_config, handlers_of,
}
use go_r2ps_service.Service.Dispatcher.{Dispatcher, Codec, EcdsaSignRequest}
use go_r2ps_service.Service.Dispatcher.New.{
  DispatcherConfig, new_dispatcher, store_record_store, minutes,
}
use go_r2ps_service.Service.Eudiw.{WalletProviderConfig, EudiwCodec}
use go_r2ps_service.Service.Handlers.{Backend, HandlerCodec}
use go_r2ps_service.StatusList.{Config}
use go_r2ps_service.Store.{Store}
use go_r2ps_service.Store.Mongo.Connect.{MongoDbConfig}
use go_r2ps_service.WebAuthn.AuthData.{PublicKey}

-- What `main` finds and calls: `K` is the type of the server's key, `L` of the OPAQUE key material.
pub record Setup (S K M L I : Type 0) : Type 0 where
  pub environment : Environment
  -- strconv.ParseUint(_, 10, 32)
  pub parse_uint : String → Option ℕ
  pub generate_key : Option K
  pub public_key : K → PublicKey
  pub jose : K → JoseLibrary M
  pub generate_key_material : Option L
  -- the OPAQUE library with what `NewOPAQUEServer` makes
  pub opaque_server : L → Result String (OpaqueLibrary M)
  pub new_backend : Pkcs11Config → Result String (Backend S)
  -- the nil backend
  pub no_backend : Backend S
  pub new_mongo_store : MongoDbConfig → Result String (Store S)
  pub new_memory_store : Store S
  -- the 32 bytes of crypto/rand
  pub random : Option Bytes
  pub load_chain : String → Result String (List Bytes)
  pub info : String → I
  pub codec : Codec
  pub sha256 : Bytes → Bytes
  pub handler_codec : HandlerCodec
  pub eudiw : EudiwCodec I
  pub wka : WalletProviderConfig S K I → ℤ → String → Bytes → Exec S String Bytes
  pub wia : WalletProviderConfig S K I → ℤ → String → Bytes → Exec S String Bytes

-- What the listeners serve. The admin API has its own address.
pub record Running (S K M : Type 0) : Type 0 where
  pub listen : String
  pub roles : List Role
  pub backend : Option (Backend S)
  pub store : Store S
  pub dispatcher : Dispatcher S M
  pub hsm_timeout : ℤ
  pub status_list : Option (Config K)
  pub tls : Option (String × String)
  pub admin_api : Option (String × Options)

infixl 5 ◌>>=◌
unfoldable pub ◌>>=◌ : {A B : Type 0} → Result String A → (A → Result String B) → Result String B
ok a >>= f = f a
err e >>= f = err e

-- `if err != nil { ...; os.Exit(1) }`.
unfoldable pub require : {A : Type 0} → Option A → String → Result String A
require none e = err e
require (some a) e = ok a

-- `GenerateDevToken`, on the random bytes.
abbrev pub hex_text : Bytes → String
hex_text [] = ""
hex_text (b ∷ bs) =
    let rest = hex_text bs in
    String.◌∷◌ (char_at "0123456789abcdef" (b / 16) "0")
      (String.◌∷◌ (char_at "0123456789abcdef" (b % 16) "0") rest)

module _ {S K M L I : Type 0} (u : Setup S K M L I) where
  abbrev pub getenv : String → String
  getenv = u.environment.getenv

  abbrev pub slot_of : String → Result String ℕ
  slot_of text = if text == "" then ok 0 else require (u.parse_uint text) "invalid R2PS_HSM_SLOT"

  abbrev pub needed : String → Result String String
  needed name = if getenv name == "" then err name else ok (getenv name)

  -- The HSM is connected for the role that signs.
  unfoldable pub connect_hsm : Result String (Option (Backend S))
  connect_hsm = do
    path ← needed "R2PS_HSM_MODULE"
    pin ← needed "R2PS_HSM_PIN"
    slot ← slot_of (getenv "R2PS_HSM_SLOT")
    backend ← u.new_backend (record {
      module_path = path;
      slot_id = slot;
      pin = pin;
      token_label = getenv "R2PS_HSM_TOKEN_LABEL";
      pool_size = pos (env_int u.environment "R2PS_HSM_POOL_SIZE" 4);
    })
    ok (some backend)

  abbrev pub backend_for : List Role → Result String (Option (Backend S))
  backend_for roles = if has wscd roles then connect_hsm else ok none

  abbrev pub backend_or_nil : Option (Backend S) → Backend S
  backend_or_nil none = u.no_backend
  backend_or_nil (some b) = b

  unfoldable pub lifecycle_store : Result String (Store S)
  lifecycle_store =
      if getenv "R2PS_STORE_URI" == ""
      then ok u.new_memory_store
      else u.new_mongo_store (record {
        uri = getenv "R2PS_STORE_URI";
        database = env_or u.environment "R2PS_STORE_DATABASE" "r2ps";
        timeout = env_int u.environment "R2PS_STORE_TIMEOUT" 10;
        password_path = getenv "R2PS_STORE_PASSWORD_PATH";
        tls_enabled = getenv "R2PS_STORE_TLS_ENABLED" == "true";
        ca_path = getenv "R2PS_STORE_TLS_CA";
        cert_path = getenv "R2PS_STORE_TLS_CERT";
        key_path = getenv "R2PS_STORE_TLS_KEY";
      })

  abbrev pub provider : K → Store S → WalletProviderConfig S K I
  provider key store = wallet_provider_config u.environment u.load_chain u.info key store

  abbrev pub dispatcher_config :
      List Role → K → Option (Backend S) → Store S → OpaqueLibrary M → DispatcherConfig S M
  dispatcher_config roles key backend store o = record {
    codec = u.codec;
    jose = u.jose key;
    sha256 = u.sha256;
    server_public_key = u.public_key key;
    opaque_key = err "no key material";
    opaque_server = some o;
    records = store_record_store store o;
    client_keys = none;
    handlers =
        handlers_of u.codec.parse_sign u.handler_codec (backend_or_nil backend) u.eudiw
          (provider key store) (u.wka (provider key store)) (u.wia (provider key store)) roles;
    max_attempts = env_int u.environment "R2PS_MAX_ATTEMPTS" 5;
    lockout_dur = env_duration u.environment "R2PS_LOCKOUT_DURATION" (pos (minutes 15));
    session_ttl = env_duration u.environment "R2PS_SESSION_TTL" (pos (minutes 5));
    iat_max_skew = 0;
    fido2 = none;
  }

  abbrev pub status_list_for : List Role → K → Store S → Option (Config K)
  status_list_for roles key store =
      if has wsca roles
      then some (record {
        signing_key = key;
        x5c_chain = (provider key store).x5c_chain;
        base_uri = (provider key store).status_list_base_uri;
        ttl = pos 0;
      })
      else none

  abbrev pub tls_of : String → String → Option (String × String)
  tls_of cert key = if cert == "" then none else if key == "" then none else some (cert, key)

  -- `GenerateDevToken`, or the token that is configured.
  abbrev pub dev_token : String → Result String Options
  dev_token token =
      if token == ""
      then (require u.random "failed to generate dev admin token" >>= λ b.
          ok (record { validator = false; dev_token = hex_text b }))
      else ok (record { validator = false; dev_token = token })

  abbrev pub admin_options : Result String Options
  admin_options =
      if getenv "R2PS_ADMIN_JWKS_URL" == ""
      then dev_token (getenv "R2PS_ADMIN_DEV_TOKEN")
      else ok (record { validator = true; dev_token = "" })

  unfoldable pub admin_for : List Role → Result String (Option (String × Options))
  admin_for roles =
      if has admin roles
      then (if getenv "R2PS_ADMIN_LISTEN" == ""
          then ok none
          else (admin_options >>= λ o. ok (some (getenv "R2PS_ADMIN_LISTEN", o))))
      else ok none

  -- `main`.
  unfoldable pub start : Result String (Running S K M)
  start = do
    roles ← parse_roles (env_or u.environment "R2PS_MODE" "all")
    key ← require u.generate_key "failed to generate server key"
    material ← require u.generate_key_material "failed to generate OPAQUE key material"
    backend ← backend_for roles
    store ← lifecycle_store
    o ← u.opaque_server material
    d ← new_dispatcher (dispatcher_config roles key backend store o)
    api ← admin_for roles
    ok (record {
      listen = env_or u.environment "R2PS_LISTEN" ":8443";
      roles = roles;
      backend = backend;
      store = store;
      dispatcher = d;
      hsm_timeout = env_duration u.environment "R2PS_HSM_TIMEOUT" (pos (5 * second));
      status_list = status_list_for roles key store;
      tls = tls_of (getenv "R2PS_TLS_CERT") (getenv "R2PS_TLS_KEY");
      admin_api = api;
    })
