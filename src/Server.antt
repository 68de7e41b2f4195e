-- ===== src/Server.antt =====
-- cmd/server/main.go: what the environment sets, and the handlers of the roles. `getenv` answers
-- "" for a variable that is not set; strconv.Atoi and time.ParseDuration are parameters, and
-- counts that are negative are not modelled.
pub mod Http
pub mod Laws
pub mod Main
use go_r2ps_service.Base.{
  ℕ, ◌*◌, String, Option, none, some, List, [], ◌∷◌, ◌++◌, ◌==◌, string_eq, if◌then◌else◌,
}
use go_r2ps_service.Base.Exec.{Result, ok, err, Exec}
use go_r2ps_service.Base.Int.{ℤ, pos, second}
use go_r2ps_service.Modes.{Role, wscd, wsca, has}
use go_r2ps_service.Protocol.{Bytes, type_wka, type_wia}
use go_r2ps_service.Store.{Store}
use go_r2ps_service.Service.Dispatcher.{Handler, EcdsaSignRequest, mode_1fa}
use go_r2ps_service.Service.Dispatcher.New.{minutes}
use go_r2ps_service.Service.Eudiw.{WalletProviderConfig, EudiwCodec}
use go_r2ps_service.Service.Eudiw.Revoke.{revoke_handler, suspend_handler}
use go_r2ps_service.Service.Handlers.{
  Backend, HandlerCodec, ecdsa_handler, keygen_handler, ecdh_handler, list_keys_handler,
}

pub record Environment : Type 0 where
  pub getenv : String → String
  pub atoi : String → Option ℕ
  pub parse_duration : String → Option ℤ

abbrev pub hours : ℕ → ℤ
hours n = pos (minutes (n * 60))

module _ (e : Environment) where
  -- `envOr`.
  abbrev pub env_or : String → String → String
  env_or key fallback = if e.getenv key == "" then fallback else e.getenv key

  abbrev pub parsed_or : {A : Type 0} → A → Option A → A
  parsed_or fallback none = fallback
  parsed_or fallback (some a) = a

  -- `envInt`.
  abbrev pub env_int : String → ℕ → ℕ
  env_int key fallback =
      if e.getenv key == "" then fallback else parsed_or fallback (e.atoi (e.getenv key))

  -- `envDuration`.
  abbrev pub env_duration : String → ℤ → ℤ
  env_duration key fallback =
      if e.getenv key == "" then fallback else parsed_or fallback (e.parse_duration (e.getenv key))

  -- A chain that cannot be loaded is left out.
  abbrev pub chain_or_nil : Result String (List Bytes) → List Bytes
  chain_or_nil (ok chain) = chain
  chain_or_nil (err msg) = []

  -- `walletProviderConfig`; `load_chain` is `LoadX5CChain`, and `info` makes a JSON value of a text.
  abbrev pub wallet_provider_config :
      {S K I : Type 0}
      → (String → Result String (List Bytes))
      → (String → I)
      → K
      → Store S
      → WalletProviderConfig S K I
  wallet_provider_config load_chain info server_key store = record {
    signing_key = server_key;
    x5c_chain =
        if e.getenv "R2PS_WP_X5C_PATH" == ""
        then []
        else chain_or_nil (load_chain (e.getenv "R2PS_WP_X5C_PATH"));
    wallet_link = env_or "R2PS_WP_WALLET_LINK" "";
    wallet_name = env_or "R2PS_WP_WALLET_NAME" "SIROS EUDI Wallet";
    wallet_version = env_or "R2PS_WP_WALLET_VERSION" "0.1.0";
    wallet_solution_certification_info = info (env_or "R2PS_WP_CERT_INFO" "");
    key_storage_level = env_or "R2PS_WP_KEY_STORAGE_LEVEL" "iso_18045_high" ∷ [];
    user_auth_level = env_or "R2PS_WP_USER_AUTH_LEVEL" "iso_18045_high" ∷ [];
    certification = env_or "R2PS_WP_CERTIFICATION" "";
    status_list_base_uri = env_or "R2PS_WP_STATUS_LIST_BASE" "https://wp.example.com/statuslists";
    wka_ttl = env_duration "R2PS_WP_WKA_TTL" (hours 24);
    wia_ttl = env_duration "R2PS_WP_WIA_TTL" (hours 12);
    status_maintenance_period = env_duration "R2PS_WP_STATUS_MAINT" (hours (31 * 24));
    store = store;
  }

-- The handlers that `main` registers. The work of the two that attest is given, as they may end
-- with a panic, which a handler of the dispatcher's model cannot.
module _ {S K I : Type 0} (parse_sign : Bytes → Option EcdsaSignRequest) (codec : HandlerCodec)
    (backend : Backend S) (eudiw : EudiwCodec I) (cfg : WalletProviderConfig S K I)
    (wka wia : ℤ → String → Bytes → Exec S String Bytes) where
  abbrev pub attester : String → (ℤ → String → Bytes → Exec S String Bytes) → Handler S
  attester kind handle = record { kind = kind; mode = mode_1fa; handle = handle }

  abbrev pub wscd_handlers : List (Handler S)
  wscd_handlers =
      ecdsa_handler parse_sign backend
      ∷ (keygen_handler codec backend (some cfg.store)
          ∷ (ecdh_handler codec backend ∷ (list_keys_handler codec backend ∷ [])))

  abbrev pub wsca_handlers : List (Handler S)
  wsca_handlers =
      attester type_wka wka
      ∷ (attester type_wia wia ∷ (revoke_handler eudiw cfg ∷ (suspend_handler eudiw cfg ∷ [])))

  abbrev pub handlers_of : List Role → List (Handler S)
  handlers_of roles =
      (if has wscd roles then wscd_handlers else [])
      ++ (if has wsca roles then wsca_handlers else [])
