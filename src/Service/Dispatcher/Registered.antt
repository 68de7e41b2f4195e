-- ===== src/Service/Dispatcher/Registered.antt =====
-- What a registration leaves for the logins after it, over the in-memory store.
use go_r2ps_service.Base.{◌≡◌, refl, Option, none, some, string_eq, eq_self, sym, subst}
use go_r2ps_service.Base.Assoc.{lookup-insert}
use go_r2ps_service.Base.Exec.{Result, ok, require-elim, require, ◌>>=◌, pure, fail}
use go_r2ps_service.Base.Exec.Runs.{>>=-runs}
use go_r2ps_service.Pake.Opaque.{ClientRecord}
use go_r2ps_service.Protocol.{Bytes, ServiceRequest}
use go_r2ps_service.Service.Dispatcher.{
  Dispatcher, Moment, State, Stop, ResponseData, credential_id_of, sign_response, send,
}
use go_r2ps_service.Service.Dispatcher.New.{store_record_store}
use go_r2ps_service.Service.Dispatcher.Opaque.{reg_finalize, save_record}
use go_r2ps_service.Store.Memory.{MemoryStore, memory_store, put_record, get_record, joined}

require_keeps : {S E A : Type 0} (o : Option A) (e : E) (s : S) → (require o e s).1 ≡ s
unfolding require pure fail
require_keeps none e s = refl
require_keeps (some a) e s = refl

module _ {M : Type 0} (d : Dispatcher MemoryStore M) (t : Moment) (req : ServiceRequest) where
  -- Signing a response leaves the state alone.
  sign_response_keeps :
      (x : ResponseData) (s : State MemoryStore) → (sign_response d t req x s).1 ≡ s
  unfolding sign_response send
  sign_response_keeps x s =
      let P : Result Stop Bytes × State MemoryStore → Type 0 = λ r. r.1 ≡ s in
      require-elim s P _ _ _ refl
        λ payload _. require-elim s P _ _ _ refl λ json _. require_keeps (d.jose.sign json) _ s

  abbrev pub stored_in : ClientRecord M → State MemoryStore → State MemoryStore
  stored_in r s = record s {
    world =
        (put_record req.client_id req.context (d.opaque_server.serialize r.registration_record)
          s.world).1;
  }

  pub save_record-eq :
      (r : ClientRecord M) (s : State MemoryStore)
      → d.records ≡ store_record_store memory_store d.opaque_server
      → save_record d t req r s ≡ (ok tt, stored_in r s)
  unfolding save_record put_record ◌>>=◌ pure
  save_record-eq r s records = rw records

  -- The record that a login of this client will find.
  pub record HasRegistered (req_data : Bytes) (s : State MemoryStore) : Type 0 where
    pub message : M
    pub read : d.opaque_server.deserialize_record req_data ≡ some message
    pub found :
        d.records.get_record req.client_id req.context s.world
        ≡ some
            (record { registration_record = message; credential_identifier = credential_id_of req })

  pub found_again :
      (m : M) (s : State MemoryStore)
      → d.records ≡ store_record_store memory_store d.opaque_server
      → d.opaque_server.deserialize_record (d.opaque_server.serialize m) ≡ some m
      → d.records.get_record req.client_id req.context
          (stored_in
            (record { registration_record = m; credential_identifier = credential_id_of req })
            s).world
        ≡ some (record { registration_record = m; credential_identifier = credential_id_of req })
  unfolding put_record get_record
  found_again m s records reads =
      let key = joined req.client_id req.context in
      rw (
        records,
        lookup-insert key key (d.opaque_server.serialize m) s.world.records,
        eq_self key,
        reads,
      )

  -- With the store's records over the in-memory store, a registration that is answered with success
  -- has stored the very record that the client sent, under the identifier that its evaluation used,
  -- if the OPAQUE library reads back a record that it has read once and written again.
  pub reg_finalize-HasRegistered :
      (req_data answer : Bytes) (s : State MemoryStore)
      → d.records ≡ store_record_store memory_store d.opaque_server
      → ((m : M)
          → d.opaque_server.deserialize_record req_data ≡ some m
          → d.opaque_server.deserialize_record (d.opaque_server.serialize m) ≡ some m)
      → (reg_finalize d t req req_data s).0 ≡ ok answer
      → HasRegistered req_data (reg_finalize d t req req_data s).1
  unfolding reg_finalize
  reg_finalize-HasRegistered req_data answer s records reads =
      let P : Result Stop Bytes × State MemoryStore → Type 0 =
        λ r. r.0 ≡ ok answer → HasRegistered req_data r.1 in
      require-elim s P _ _ _ (λ h. cc h)
        λ m read.
          let r : ClientRecord M = record {
            registration_record = m;
            credential_identifier = credential_id_of req;
          } in
          subst P (sym (>>=-runs s _ (save_record d t req r) _ (save_record-eq r s records) refl))
            λ h. record {
              message = m;
              read = read;
              found =
                  rw (sign_response_keeps _ (stored_in r s))
                    (found_again m s records (reads m read));
            }
