-- ===== src/Tests/Started.antt =====
-- A server of all roles that starts with a made-up admin token, with toy libraries.
use go_r2ps_service.Base.{
  ◌≡◌, ◌≢◌, refl, ◌⊎◌, String, true, false, none, some, [], ◌∷◌, ◌==◌, ◌*◌, Bool, string_eq,
  if◌then◌else◌, bytes_beq,
}
use go_r2ps_service.Base.Exec.{ok, err}
use go_r2ps_service.Base.Int.{pos, second}
use go_r2ps_service.Base.Text.Base64.{char_at}
use go_r2ps_service.Admin.{AdminLibrary, Options, allocate_index, serve}
use go_r2ps_service.Admin.Auth.{TokenLibrary, TokenResult, HttpRequest}
use go_r2ps_service.Admin.Access.{Permitted, Writes, verified}
use go_r2ps_service.Modes.{admin, has, valid_roles, parse_roles}
use go_r2ps_service.Base.Text.Split.{trim_space}
use go_r2ps_service.Protocol.{Bytes}
use go_r2ps_service.Server.{Environment, env_or}
use go_r2ps_service.Server.Main.{
  Setup, Running, start, connect_hsm, lifecycle_store, admin_for, require, ◌>>=◌, dispatcher_config,
  status_list_for,
}
use go_r2ps_service.Server.Main.Started.{Serves, start-Serves, start-serve_keeps}
use go_r2ps_service.Service.Dispatcher.New.{dispatcher_with, new_dispatcher}
use go_r2ps_service.Store.Memory.{MemoryStore, memory_store, new_memory_store}
use go_r2ps_service.Tests.Demo
use go_r2ps_service.Tests.Server
use go_r2ps_service.Tests.Wallet

abbrev setting : String → String
setting key =
    if key == "R2PS_HSM_MODULE"
    then "p11.so"
    else if key == "R2PS_HSM_PIN"
    then "1234"
    else if key == "R2PS_ADMIN_LISTEN"
    then ":9443"
    else ""

abbrev environment : Environment
environment = record { getenv = setting; atoi = λ t. none; parse_duration = λ t. none }

abbrev setup : Setup MemoryStore Bool Bytes Bool String
setup = record {
  environment = environment;
  parse_uint = λ t. none;
  generate_key = some true;
  public_key = λ k. Demo.key;
  jose = λ k. Demo.jose;
  generate_key_material = some true;
  opaque_server = λ k. ok Demo.opaque_library;
  new_backend = λ c. ok Demo.backend;
  no_backend = Demo.backend;
  new_mongo_store = λ c. err "no database";
  new_memory_store = memory_store;
  random = some (10 ∷ []);
  load_chain = λ path. ok [];
  info = λ t. t;
  codec = Demo.codec;
  sha256 = λ b. Demo.zero_hash;
  handler_codec = Server.handler_codec;
  eudiw = Wallet.codec;
  wka = λ cfg now client b s. (err "no keys", s);
  wia = λ cfg now client b s. (err "no keys", s);
}

abbrev running : Running MemoryStore Bool Bytes
running = record {
  listen = ":8443";
  roles = valid_roles;
  backend = some Demo.backend;
  store = memory_store;
  dispatcher =
      dispatcher_with
        (dispatcher_config setup valid_roles true (some Demo.backend) memory_store
          Demo.opaque_library)
        Demo.opaque_library;
  hsm_timeout = pos (5 * second);
  status_list = status_list_for setup valid_roles true memory_store;
  tls = none;
  admin_api = some (":9443", record { validator = false; dev_token = "0a" });
}

starts : start setup ≡ ok running
unfolding start connect_hsm lifecycle_store admin_for require ◌>>=◌ parse_roles trim_space bytes_beq
    new_dispatcher char_at
starts = refl

start-Serves_example :
    (parse_roles (env_or environment "R2PS_MODE" "all") ≡ ok valid_roles) × Serves setup running
start-Serves_example = start-Serves setup running starts

abbrev lib : AdminLibrary
lib = record { atoi = λ t. none; parse_status = λ b. none }

abbrev tokens : TokenLibrary
tokens = record { validate = λ t. none; has_admin = λ tac. tac == "a"; has_all = λ tac p. tac == p }

abbrev options : Options
options = record { validator = false; dev_token = "0a" }

abbrev bearing : HttpRequest
bearing = record { authorization = "Bearer 0a"; context = none }

drawn : setup.random ≢ some []
drawn h = cc h

start-serve_keeps_example :
    (has admin valid_roles ≡ true)
    × (((serve lib tokens memory_store options (allocate_index "ka") bearing new_memory_store).1
          ≡ new_memory_store)
        ⊎ (Writes (allocate_index "ka")
            × (result : TokenResult) × (verified tokens options bearing ≡ some result)
            × Permitted tokens (allocate_index "ka") result))
start-serve_keeps_example =
    start-serve_keeps setup lib tokens running ":9443" options (allocate_index "ka") bearing
      new_memory_store drawn starts refl
