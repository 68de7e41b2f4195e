-- ===== src/Server/Main/Started.antt =====
-- What a server that has started serves: its roles, the key of its requests, and its admin API.
use go_r2ps_service.Base.{
  ◌^◌, ◌≡◌, ◌≢◌, refl, sym, subst, ◌∙◌, ◌⊎◌, inl, inr, String, true, Option, none, some, List, [],
  ◌∷◌, take, is_some, ◌==◌, string_eq, eq_iff, Bool-cases,
}
use go_r2ps_service.Base.Exec.{Result, ok, err}
use go_r2ps_service.Admin.{AdminLibrary, Options, Route, serve}
use go_r2ps_service.Admin.Auth.{TokenLibrary, TokenResult, HttpRequest}
use go_r2ps_service.Admin.Access.{HasAuth, Permitted, Writes, verified, serve_keeps}
use go_r2ps_service.Modes.{Role, wscd, wsca, admin, has, parse_roles}
use go_r2ps_service.Protocol.{Bytes, illegal_request_data}
use go_r2ps_service.Server.{env_or}
use go_r2ps_service.Server.Http.{write_error, r2ps_handler}
use go_r2ps_service.Server.Laws.{HasAnswered, r2ps_handler-cases}
use go_r2ps_service.Server.Main.{
  Setup, Running, ◌>>=◌, require, getenv, hex_text, connect_hsm, backend_for, backend_or_nil,
  provider, dispatcher_config, status_list_for, dev_token, admin_options, admin_for, start,
}
use go_r2ps_service.Service.Dispatcher.{Moment, State}
use go_r2ps_service.Service.Dispatcher.New.{new_dispatcher, dispatcher_with}
use go_r2ps_service.Service.Dispatcher.Process.{verification_key}
use go_r2ps_service.Service.Handlers.{Backend}
use go_r2ps_service.Store.{Store}
use go_r2ps_service.Pake.Opaque.{OpaqueLibrary}

-- A chain that ends well has passed its first step.
>>=-ok :
    {A B : Type 0} (r : Result String A) (f : A → Result String B) {b : B}
    → (r >>= f) ≡ ok b
    → (a : A) × (r ≡ ok a) × (f a ≡ ok b)
unfolding ◌>>=◌
>>=-ok (ok a) f h = (a, refl, h)
>>=-ok (err e) f h = absurd (cc h)

require-ok : {A : Type 0} (o : Option A) (e : String) {a : A} → require o e ≡ ok a → o ≡ some a
unfolding require
require-ok (some a) e h = cc h
require-ok none e h = absurd (cc h)

ok-inj : {E A : Type 0} {a b : A} → (let r : Result E A = ok a in r) ≡ ok b → a ≡ b
ok-inj h = cc h

hex_text-empty : (b : Bytes) → hex_text b ≡ "" → b ≡ []
hex_text-empty [] h = refl
hex_text-empty (x ∷ b) h = absurd (cc h)

module _ {S K M L I : Type 0} (u : Setup S K M L I) where
  connect_hsm-some : (b : Option (Backend S)) → connect_hsm u ≡ ok b → is_some b ≡ true
  unfolding connect_hsm
  connect_hsm-some b h =
      let (path, _, h1) = >>=-ok _ _ h in
      let (pin, _, h2) = >>=-ok _ _ h1 in
      let (slot, _, h3) = >>=-ok _ _ h2 in let (backend, _, h4) = >>=-ok _ _ h3 in cc h4

  backend_for-has :
      (roles : List Role) (b : Option (Backend S))
      → backend_for u roles ≡ ok b
      → is_some b ≡ has wscd roles
  backend_for-has roles b = elim (Bool-cases (has wscd roles)) [
    | inl on ↦ rw on λ h. connect_hsm-some b h
    | inr off ↦ rw off λ h. cc h
  ]

  dev_token-HasAuth :
      (token : String) (o : Options) → u.random ≢ some [] → dev_token u token ≡ ok o → HasAuth o
  dev_token-HasAuth token o drawn = elim (Bool-cases (token == "")) [
    | inl empty ↦ rw empty λ h.
        let (b, r, e) = >>=-ok (require u.random "failed to generate dev admin token") _ h in
        inr λ z. drawn (require-ok u.random _ r ∙ rw (hex_text-empty b (cc (e, z))) refl)
    | inr given ↦ rw given λ h. inr λ z. absurd (cc (given, (eq_iff token "").1 (cc (h, z))))
  ]

  admin_options-HasAuth : (o : Options) → u.random ≢ some [] → admin_options u ≡ ok o → HasAuth o
  admin_options-HasAuth o drawn = elim (Bool-cases (getenv u "R2PS_ADMIN_JWKS_URL" == "")) [
    | inl empty ↦ rw empty λ h. dev_token-HasAuth (getenv u "R2PS_ADMIN_DEV_TOKEN") o drawn h
    | inr given ↦ rw given λ h. inl (cc h)
  ]

  admin_for-HasAuth :
      (roles : List Role) (listen : String) (o : Options)
      → u.random ≢ some []
      → admin_for u roles ≡ ok (some (listen, o))
      → (has admin roles ≡ true) × HasAuth o
  unfolding admin_for
  admin_for-HasAuth roles listen o drawn = elim (Bool-cases (has admin roles)) [
    | inl on ↦ elim (Bool-cases (getenv u "R2PS_ADMIN_LISTEN" == "")) [
      | inl quiet ↦ rw (on, quiet) λ h. absurd (cc h)
      | inr there ↦
          rw (on, there)
            λ h.
              let (p, made, e) = >>=-ok (admin_options u) _ h in
              (refl, admin_options-HasAuth o drawn (cc (made, e)))
    ]
    | inr off ↦ rw off λ h. absurd (cc h)
  ]

  status_list_for-has :
      (roles : List Role) (key : K) (store : Store S)
      → is_some (status_list_for u roles key store) ≡ has wsca roles
  status_list_for-has roles key store = elim (Bool-cases (has wsca roles)) [
    | inl on ↦ rw on refl
    | inr off ↦ rw off refl
  ]

  -- What is made on the way to a server that runs.
  record IsStarted (r : Running S K M) : Type 0 where
    pub mode : parse_roles (env_or u.environment "R2PS_MODE" "all") ≡ ok r.roles
    pub key : K
    pub generated : u.generate_key ≡ some key
    pub connected : is_some r.backend ≡ has wscd r.roles
    pub opaque_server : OpaqueLibrary M
    pub dispatches :
        r.dispatcher
        ≡ dispatcher_with
            (dispatcher_config u r.roles key r.backend r.store opaque_server)
            opaque_server
    pub published : is_some r.status_list ≡ has wsca r.roles
    pub administered : admin_for u r.roles ≡ ok r.admin_api

  started : (r : Running S K M) → start u ≡ ok r → IsStarted r
  unfolding start new_dispatcher
  started r h =
      let (roles, mode, h1) = >>=-ok _ _ h in
      let (key, generated, h2) = >>=-ok _ _ h1 in
      let (material, _, h3) = >>=-ok _ _ h2 in
      let (backend, connected, h4) = >>=-ok _ _ h3 in
      let (store, _, h5) = >>=-ok _ _ h4 in
      let (o, _, h6) = >>=-ok _ _ h5 in
      let (d, made, h7) = >>=-ok _ _ h6 in
      let (api, administered, h8) = >>=-ok _ _ h7 in
      subst IsStarted (ok-inj h8) (record {
        mode = mode;
        key = key;
        generated = require-ok _ _ generated;
        connected = backend_for-has roles backend connected;
        opaque_server = o;
        dispatches = sym (ok-inj made);
        published = status_list_for-has roles key store;
        administered = administered;
      })

  -- How a running server answers requests.
  pub record Serves (r : Running S K M) : Type 0 where
    pub key : K
    pub generated : u.generate_key ≡ some key
    pub verifies :
        (t : Moment) (body : Bytes)
        → verification_key r.dispatcher t r.dispatcher.client_keys body ≡ some (u.public_key key)
    pub connected : is_some r.backend ≡ has wscd r.roles
    pub published : is_some r.status_list ≡ has wsca r.roles
    pub answers :
        (marshal_error : String → String → Bytes) (t : Moment) (stack : String) (body : Bytes)
        (s : State S)
        → ((msg : String) × (r2ps_handler marshal_error r.dispatcher t stack (some body) s
              ≡ (some (write_error marshal_error 400 illegal_request_data msg), s)))
          ⊎ HasAnswered u.codec.parse_sign u.handler_codec
              (backend_or_nil u r.backend)
              u.eudiw
              (provider u key r.store)
              (u.wka (provider u key r.store))
              (u.wia (provider u key r.store))
              marshal_error
              r.dispatcher
              t
              stack
              r.roles
              (take (2 ^ 20) body)
              s
              (r2ps_handler marshal_error r.dispatcher t stack (some body) s)

  -- A server that starts serves the roles that its mode names. It has an HSM exactly for the role
  -- "wscd" and publishes status lists exactly for the role "wsca". It verifies every request under
  -- the key that it has generated, and it answers a body with 400 and changes nothing, or goes on
  -- with its first megabyte as an accepted request, one of a type that is no second factor's and
  -- that none of its roles serves being answered 415.
  pub start-Serves :
      (r : Running S K M)
      → start u ≡ ok r
      → (parse_roles (env_or u.environment "R2PS_MODE" "all") ≡ ok r.roles) × Serves r
  unfolding verification_key
  start-Serves r h =
      let st = started r h in
      (
        st.mode,
        record {
          key = st.key;
          generated = st.generated;
          verifies = λ t body. rw st.dispatches refl;
          connected = st.connected;
          published = st.published;
          answers = λ marshal_error t stack body s.
              r2ps_handler-cases u.codec.parse_sign u.handler_codec (backend_or_nil u r.backend)
                u.eudiw (provider u st.key r.store) (u.wka (provider u st.key r.store))
                (u.wia (provider u st.key r.store)) marshal_error r.dispatcher t stack r.roles body
                s (rw st.dispatches refl);
        },
      )

  -- In a server that starts, the admin API is served only for the role "admin", if the random bytes
  -- are not empty, and a request to it changes the store only on a route that writes a status or
  -- allocates an index, with a good token that has the admin permission or the one of the route.
  pub start-serve_keeps :
      (lib : AdminLibrary) (tokens : TokenLibrary) (r : Running S K M) (listen : String)
      (o : Options) (route : Route) (req : HttpRequest) (s : S)
      → u.random ≢ some []
      → start u ≡ ok r
      → r.admin_api ≡ some (listen, o)
      → (has admin r.roles ≡ true)
        × (((serve lib tokens r.store o route req s).1 ≡ s)
            ⊎ (Writes route
                × (result : TokenResult) × (verified tokens o req ≡ some result)
                × Permitted tokens route result))
  start-serve_keeps lib tokens r listen o route req s drawn h api =
      let (admins, auth) =
        admin_for-HasAuth r.roles listen o drawn ((started r h).administered ∙ rw api refl) in
      (admins, serve_keeps lib tokens r.store o route req s auth)
