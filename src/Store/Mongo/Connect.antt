-- ===== src/Store/Mongo/Connect.antt =====
-- internal/store/mongodb.go: the connection to MongoDB and its indexes. The driver, crypto/tls and
-- the files are parameters.
pub mod Secure
use go_r2ps_service.Base.{
  ℕ, ◌≡◌, ◌≢◌, refl, ◌∙◌, String, Bool, true, false, ◌&&◌, Option, none, some, List, [], ◌∷◌, ◌++◌,
  not, ◌==◌, string_eq, eq_iff, nat_beq, if◌then◌else◌, Bool-cases, Option-cases, inl, inr,
}
use go_r2ps_service.Base.Exec.{
  Result, ok, err, Exec, ◌>>=◌, ◌>>◌, pure, require, read, read-elim, require-elim, >>=-eq-ok,
}
use go_r2ps_service.Base.Text.{codes}
use go_r2ps_service.Base.Text.Split.{strip_prefix, trim_space}
use go_r2ps_service.Protocol.{Bytes}
use go_r2ps_service.Store.Mongo.{MongoDbStore}

-- `MongoDBConfig`.
pub record MongoDbConfig : Type 0 where
  pub uri : String
  pub database : String
  pub timeout : ℕ
  pub password_path : String
  pub tls_enabled : Bool
  pub ca_path : String
  pub cert_path : String
  pub key_path : String

-- What `tls.Config` is given; the least version is 1.2. `T` is a pool of certificates, `C` one with
-- its key.
pub record TlsConfig (T C : Type 0) : Type 0 where
  pub root_cas : Option T
  pub certificate : Option C

-- The address is its code points, the timeout is in seconds.
pub record ClientOptions (T C : Type 0) : Type 0 where
  pub uri : List ℕ
  pub connect_timeout : ℕ
  pub tls : Option (TlsConfig T C)

pub record IndexModel : Type 0 where
  pub collection : String
  pub keys : List String
  pub unique : Bool

-- `read_text` is a file as code points, and `V` is the type of a client.
pub record Driver (W V T C : Type 0) : Type 0 where
  pub read_text : String → Option (List ℕ)
  pub read_file : String → Option Bytes
  pub query_escape : List ℕ → List ℕ
  pub cert_pool : Bytes → Option T
  pub load_key_pair : String → String → Option C
  pub connect : ClientOptions T C → Exec W String V
  pub ping : V → Exec W String (Unit {0})
  pub create_one : V → String → IndexModel → Exec W String (Unit {0})
  pub open_database : V → String → MongoDbStore W

-- `strings.Replace(_, old, new, 1)`, for an `old` that is not empty.
pub replace_once : List ℕ → List ℕ → List ℕ → List ℕ
replace_once old new [] = []
replace_once old new (c ∷ cs) =
    let rest = replace_once old new cs in
    elim (strip_prefix old (c ∷ cs)) [ none ↦ c ∷ rest | some tail ↦ new ++ tail ]

-- The indexes of `createIndexes`, in their order.
abbrev pub index_models : List IndexModel
index_models =
    record { collection = "statuses"; keys = "category" ∷ ("idx" ∷ []); unique = true }
    ∷ (record {
      collection = "client_indices";
      keys = "client_id" ∷ ("category" ∷ []);
      unique = false;
    }
        ∷ (record { collection = "usage"; keys = "category" ∷ ("idx" ∷ []); unique = true }
            ∷ (record { collection = "public_keys"; keys = "kid" ∷ []; unique = true }
                ∷ (record {
                  collection = "opaque_records";
                  keys = "client_id" ∷ ("context" ∷ []);
                  unique = true;
                }
                    ∷ (record {
                      collection = "webauthn_credentials";
                      keys = "client_id" ∷ ("context" ∷ []);
                      unique = false;
                    }
                        ∷ [])))))

module _ {W V T C : Type 0} (d : Driver W V T C) where
  abbrev pub create_indexes : V → String → List IndexModel → Exec W String (Unit {0})
  create_indexes v name [] = pure tt
  create_indexes v name (m ∷ ms) = d.create_one v name m >> create_indexes v name ms

  abbrev pub with_password : List ℕ → Option (List ℕ) → Option (List ℕ)
  with_password uri none = none
  with_password uri (some raw) =
      some (replace_once (codes "${MONGODB_PASSWORD}") (d.query_escape (trim_space raw)) uri)

  abbrev pub uri_of : MongoDbConfig → Option (List ℕ)
  uri_of cfg =
      if cfg.password_path == ""
      then some (codes cfg.uri)
      else with_password (codes cfg.uri) (d.read_text cfg.password_path)

  abbrev pub parsed_pool : Option T → Result String (Option T)
  parsed_pool none = err "failed to parse MongoDB CA certificate"
  parsed_pool (some pool) = ok (some pool)

  abbrev pub pool_of : Option Bytes → Result String (Option T)
  pool_of none = err "failed to read MongoDB CA certificate"
  pool_of (some pem) = parsed_pool (d.cert_pool pem)

  abbrev pub root_cas_of : String → Result String (Option T)
  root_cas_of path = if path == "" then ok none else pool_of (d.read_file path)

  abbrev pub pair_of : Option C → Result String (Option C)
  pair_of none = err "failed to load MongoDB client certificate"
  pair_of (some pair) = ok (some pair)

  abbrev pub certificate_of : String → String → Result String (Option C)
  certificate_of cert key =
      if not (cert == "") && not (key == "") then pair_of (d.load_key_pair cert key) else ok none

  unfoldable pub tls_made : MongoDbConfig → Exec W String (Option (TlsConfig T C))
  tls_made cfg = do
    pool ← read (λ _. root_cas_of cfg.ca_path)
    pair ← read (λ _. certificate_of cfg.cert_path cfg.key_path)
    pure (some (record { root_cas = pool; certificate = pair }))

  abbrev pub tls_of : MongoDbConfig → Exec W String (Option (TlsConfig T C))
  tls_of cfg = if cfg.tls_enabled then tls_made cfg else pure none

  abbrev pub options_of : MongoDbConfig → List ℕ → Option (TlsConfig T C) → ClientOptions T C
  options_of cfg uri tls = record {
    uri = uri;
    connect_timeout = if nat_beq cfg.timeout 0 then 10 else cfg.timeout;
    tls = tls;
  }

  -- `NewMongoDBStore`.
  unfoldable pub new_mongo_db_store : MongoDbConfig → Exec W String (MongoDbStore W)
  new_mongo_db_store cfg = do
    uri ← require (uri_of cfg) "failed to read MongoDB password file"
    tls ← tls_of cfg
    v ← d.connect (options_of cfg uri tls)
    d.ping v
    let name = if cfg.database == "" then "r2ps" else cfg.database
    create_indexes v name index_models
    pure (d.open_database v name)
