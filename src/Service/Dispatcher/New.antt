-- ===== src/Service/Dispatcher/New.antt =====
-- internal/service/dispatcher.go: the two record stores and `NewDispatcher`, with `NewOPAQUEServer`
-- of internal/pake/opaque.go.
use go_r2ps_service.Base.{
  ℕ, ◌*◌, String, Option, none, some, [], List, string_eq, nat_beq, if◌then◌else◌,
}
use go_r2ps_service.Base.Assoc.{Assoc, lookup, insert}
use go_r2ps_service.Base.Exec.{Result, ok, err}
use go_r2ps_service.Base.Int.{ℤ, pos, second, int_eq}
use go_r2ps_service.Base.{◌==◌}
use go_r2ps_service.Base.Text.{utf8}
use go_r2ps_service.Crypto.Jws.{JoseLibrary}
use go_r2ps_service.Pake.Counter.{new_attempt_counter}
use go_r2ps_service.Pake.Opaque.{OpaqueLibrary, ClientRecord}
use go_r2ps_service.Pake.Session.{new_session_store}
use go_r2ps_service.Protocol.{Bytes}
use go_r2ps_service.Store.{Store}
use go_r2ps_service.Store.Memory.{joined}
use go_r2ps_service.WebAuthn.AuthData.{PublicKey}
use go_r2ps_service.Service.Dispatcher.{
  Dispatcher, Handler, RecordStore, State, Codec, Fido2Handler, handler_map,
}

-- `InMemoryRecordStore`, whose state is its map.
abbrev pub in_memory_record_store : {M : Type 0} → RecordStore (Assoc String (ClientRecord M)) M
in_memory_record_store = record {
  get_record = λ client_id context m. lookup (joined client_id context) m;
  put_record = λ client_id context r m. (ok tt, insert (joined client_id context) r m);
}

module _ {S M : Type 0} (store : Store S) (o : OpaqueLibrary M) where
  abbrev pub client_record : String → String → Option M → Option (ClientRecord M)
  client_record client_id context none = none
  client_record client_id context (some r) =
      some (record {
        registration_record = r;
        credential_identifier = utf8 (joined context client_id);
      })

  abbrev pub record_of_data :
      {E : Type 0} → String → String → Result E Bytes → Option (ClientRecord M)
  record_of_data client_id context (ok bytes) =
      client_record client_id context (o.deserialize_record bytes)
  record_of_data client_id context (err e) = none

  -- `StoreRecordStore`.
  abbrev pub store_record_store : RecordStore S M
  store_record_store = record {
    get_record = λ client_id context s.
        record_of_data client_id context (store.get_record client_id context s);
    put_record = λ client_id context r.
        store.put_record client_id context (o.serialize r.registration_record);
  }

-- What `NewOPAQUEServer` calls of the OPAQUE library: `K` is the key material, `V` a server, `D` a
-- deserializer.
pub record OpaqueSetup (K V D : Type 0) : Type 0 where
  pub server : Option V
  pub set_key_material : V → K → Option V
  pub deserializer : Option D

module _ {K V D : Type 0} (o : OpaqueSetup K V D) where
  abbrev with_deserializer : V → Option D → Result String (V × D)
  with_deserializer v none = err "create deserializer"
  with_deserializer v (some d) = ok (v, d)

  abbrev with_keys : Option V → Result String (V × D)
  with_keys none = err "set key material"
  with_keys (some v) = with_deserializer v o.deserializer

  abbrev with_server : K → Option V → Result String (V × D)
  with_server skm none = err "create OPAQUE server"
  with_server skm (some v) = with_keys (o.set_key_material v skm)

  -- `NewOPAQUEServer`.
  unfoldable pub new_opaque_server : K → Result String (V × D)
  new_opaque_server skm = with_server skm o.server

-- `DispatcherConfig`, with the parameters. `opaque_key` is what `NewOPAQUEServer` makes of the
-- deprecated field.
pub record DispatcherConfig (S M : Type 0) : Type 0 where
  pub codec : Codec
  pub jose : JoseLibrary M
  pub sha256 : Bytes → Bytes
  pub server_public_key : PublicKey
  pub opaque_key : Result String (OpaqueLibrary M)
  pub opaque_server : Option (OpaqueLibrary M)
  pub records : RecordStore S M
  pub client_keys : Option (String → Option PublicKey)
  pub handlers : List (Handler S)
  pub max_attempts : ℕ
  pub lockout_dur : ℤ
  pub session_ttl : ℤ
  pub iat_max_skew : ℕ
  pub fido2 : Option (Fido2Handler S)

-- A default in the place of a zero.
abbrev pub count_or : ℕ → ℕ → ℕ
count_or default n = if nat_beq n 0 then default else n

abbrev pub duration_or : ℕ → ℤ → ℤ
duration_or default z = if z == pos 0 then pos default else z

abbrev pub minutes : ℕ → ℕ
minutes n = n * 60 * second

module _ {S M : Type 0} (cfg : DispatcherConfig S M) where
  abbrev pub dispatcher_with : OpaqueLibrary M → Dispatcher S M
  dispatcher_with o = record {
    codec = cfg.codec;
    jose = cfg.jose;
    sha256 = cfg.sha256;
    server_public_key = cfg.server_public_key;
    opaque_server = o;
    records = cfg.records;
    client_keys = cfg.client_keys;
    handlers = handler_map [] cfg.handlers;
    session_ttl = duration_or (minutes 5) cfg.session_ttl;
    iat_max_skew = count_or (minutes 5) cfg.iat_max_skew;
    fido2 = cfg.fido2;
  }

  abbrev pub opaque_server_of :
      Option (OpaqueLibrary M) → Result String (OpaqueLibrary M) → Result String (OpaqueLibrary M)
  opaque_server_of none (ok o) = ok o
  opaque_server_of none (err e) = err "create OPAQUE server"
  opaque_server_of (some o) made = ok o

  abbrev pub dispatcher_of : Result String (OpaqueLibrary M) → Result String (Dispatcher S M)
  dispatcher_of (ok o) = ok (dispatcher_with o)
  dispatcher_of (err e) = err e

  -- `NewDispatcher`, and the state that it starts in.
  unfoldable pub new_dispatcher : Result String (Dispatcher S M)
  new_dispatcher = dispatcher_of (opaque_server_of cfg.opaque_server cfg.opaque_key)

  abbrev pub new_state : S → State S
  new_state world = record {
    sessions = new_session_store;
    counter =
        new_attempt_counter (count_or 5 cfg.max_attempts)
          (duration_or (minutes 15) cfg.lockout_dur);
    world = world;
  }
