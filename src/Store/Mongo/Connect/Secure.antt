-- ===== src/Store/Mongo/Connect/Secure.antt =====
-- What a connection to MongoDB is made with, where the configuration asks for TLS.
use go_r2ps_service.Base.{
  ◌≡◌, ◌≢◌, refl, sym, ap, String, Bool, true, false, Option, none, some, ◌==◌, string_eq, eq_iff,
  if◌then◌else◌, Bool-cases, Option-cases, inl, inr,
}
use go_r2ps_service.Base.Exec.{Result, ok, pure, read-elim, require-elim, >>=-elim}
use go_r2ps_service.Protocol.{Bytes}
use go_r2ps_service.Store.Mongo.{MongoDbStore}
use go_r2ps_service.Store.Mongo.Connect.{
  MongoDbConfig, TlsConfig, ClientOptions, Driver, uri_of, pool_of, root_cas_of, pair_of,
  certificate_of, tls_made, options_of, new_mongo_db_store,
}

is_nonempty : (s : String) → s ≢ "" → (s == "") ≡ false
is_nonempty s h = elim (Bool-cases (s == "")) [
  | inl empty ↦ absurd (h ((eq_iff s "").0 empty))
  | inr full ↦ full
]

module _ {W V T C : Type 0} (d : Driver W V T C) where
  -- The server is checked against the authority that is configured, if one is, and the client
  -- shows the certificate that is configured with its key, if both are.
  pub record IsSecured (cfg : MongoDbConfig) (tls : Option (TlsConfig T C)) : Type 0 where
    pub config : TlsConfig T C
    pub given : tls ≡ some config
    pub trusts :
        cfg.ca_path ≢ ""
        → (pem : Bytes) × (pool : T) × (d.read_file cfg.ca_path ≡ some pem)
          × (d.cert_pool pem ≡ some pool)
          × (config.root_cas ≡ some pool)
    pub shows :
        cfg.cert_path ≢ ""
        → cfg.key_path ≢ ""
        → (pair : C) × (d.load_key_pair cfg.cert_path cfg.key_path ≡ some pair)
          × (config.certificate ≡ some pair)

  pool_of-some :
      (o : Option Bytes) (x : Option T)
      → pool_of d o ≡ ok x
      → (pem : Bytes) × (pool : T) × (o ≡ some pem)
        × (d.cert_pool pem ≡ some pool)
        × (x ≡ some pool)
  pool_of-some none x = λ h. absurd (cc h)
  pool_of-some (some pem) x = elim (Option-cases (d.cert_pool pem)) [
    | inl bad ↦ rw bad λ h. absurd (cc h)
    | inr (pool, good) ↦ rw good λ h. (pem, pool, refl, good, cc h)
  ]

  root_cas_of-some :
      (path : String) (x : Option T)
      → path ≢ ""
      → root_cas_of d path ≡ ok x
      → (pem : Bytes) × (pool : T) × (d.read_file path ≡ some pem)
        × (d.cert_pool pem ≡ some pool)
        × (x ≡ some pool)
  root_cas_of-some path x full = rw (is_nonempty path full) (pool_of-some (d.read_file path) x)

  pair_of-some :
      (o : Option C) (x : Option C)
      → pair_of d o ≡ ok x
      → (pair : C) × (o ≡ some pair) × (x ≡ some pair)
  pair_of-some none x h = absurd (cc h)
  pair_of-some (some pair) x h = (pair, refl, cc h)

  certificate_of-some :
      (cert key : String) (x : Option C)
      → cert ≢ ""
      → key ≢ ""
      → certificate_of d cert key ≡ ok x
      → (pair : C) × (d.load_key_pair cert key ≡ some pair) × (x ≡ some pair)
  certificate_of-some cert key x full whole =
      rw (is_nonempty cert full, is_nonempty key whole) (pair_of-some (d.load_key_pair cert key) x)

  tls_made-IsSecured :
      (cfg : MongoDbConfig) (w v : W) (tls : Option (TlsConfig T C))
      → tls_made d cfg w ≡ (ok tls, v)
      → (v ≡ w) × IsSecured cfg tls
  unfolding tls_made pure
  tls_made-IsSecured cfg w v tls =
      let P : Result String (Option (TlsConfig T C)) × W → Type 0 =
        λ r. r ≡ (ok tls, v) → (v ≡ w) × IsSecured cfg tls in
      read-elim w P _ _ (λ e _ h. absurd (cc h))
        λ pool trusted.
          read-elim w P _ _ (λ e _ h. absurd (cc h))
            λ pair shown h. (
              sym (ap (λ r. r.1) h),
              record {
                config = record { root_cas = pool; certificate = pair };
                given = cc h;
                trusts = λ full. root_cas_of-some cfg.ca_path pool full trusted;
                shows = λ full whole.
                    certificate_of-some cfg.cert_path cfg.key_path pair full whole shown;
              },
            )

  chosen :
      {A : Type 0} (b : Bool) (x y : W → A) (w : W) (r : A)
      → b ≡ true
      → (if b then x else y) w ≡ r
      → x w ≡ r
  chosen true x y w r h e = e
  chosen false x y w r h e = absurd (cc h)

  -- A store is the database, of the configured name or "r2ps", that was opened on a client which the
  -- one connection gave and which answered a ping.
  pub record IsOpened (cfg : MongoDbConfig) (w : W) (db : MongoDbStore W) (o : ClientOptions T C)
      : Type 0 where
    pub client : V
    pub connected_world : W
    pub connected : d.connect o w ≡ (ok client, connected_world)
    pub answered : (d.ping client connected_world).0 ≡ ok tt
    pub opened : db ≡ d.open_database client (if cfg.database == "" then "r2ps" else cfg.database)

  -- A store that is made from a configuration with TLS is the database opened on a client that
  -- answered a ping and was connected with TLS, under the authority and with the client certificate
  -- that are configured, at the address with the password of the file that is configured.
  pub new_mongo_db_store-IsSecured :
      (cfg : MongoDbConfig) (w : W) (db : MongoDbStore W)
      → cfg.tls_enabled ≡ true
      → (new_mongo_db_store d cfg w).0 ≡ ok db
      → (o : ClientOptions T C) × IsOpened cfg w db o
        × (uri_of d cfg ≡ some o.uri)
        × IsSecured cfg o.tls
  unfolding new_mongo_db_store pure
  new_mongo_db_store-IsSecured cfg w db enabled =
      let P : Result String (MongoDbStore W) × W → Type 0 = λ r.
        r.0 ≡ ok db
        → (o : ClientOptions T C) × IsOpened cfg w db o
          × (uri_of d cfg ≡ some o.uri)
          × IsSecured cfg o.tls in
      require-elim w P _ _ _ (λ h. absurd (cc h))
        λ uri addressed.
          >>=-elim w P _ _ (λ e t _ h. absurd (cc h))
            λ tls t secured.
              let (same, tls_secured) =
                tls_made-IsSecured cfg w t tls (chosen cfg.tls_enabled _ _ w _ enabled secured) in
              >>=-elim t P _ _ (λ e v _ h. absurd (cc h))
                λ client v connected.
                  >>=-elim v P _ _ (λ e u _ h. absurd (cc h))
                    λ _ u pinged.
                      >>=-elim u P _ _ (λ e z _ h. absurd (cc h))
                        λ _ z created h. (
                          options_of d cfg uri tls,
                          record {
                            client = client;
                            connected_world = v;
                            connected = rw (← same) connected;
                            answered = ap (λ r. r.0) pinged;
                            opened = cc h;
                          },
                          addressed,
                          tls_secured,
                        )
