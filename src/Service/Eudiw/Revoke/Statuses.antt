-- ===== src/Service/Eudiw/Revoke/Statuses.antt =====
-- The handlers that revoke and suspend, over the in-memory store.
use go_r2ps_service.Base.{ℕ, ◌+◌, ◌≡◌, refl, ap, String, ◌&&◌, some}
use go_r2ps_service.Base.Exec.{ok, ◌>>=◌, pure, require}
use go_r2ps_service.Protocol.{Bytes}
use go_r2ps_service.Store.{status_invalid, status_suspended}
use go_r2ps_service.Store.Memory.{MemoryStore, memory_store}
use go_r2ps_service.Store.Memory.Status.{status_at}
use go_r2ps_service.Service.Eudiw.{WalletProviderConfig, EudiwCodec}
use go_r2ps_service.Service.Eudiw.Revoke.{revoke_all, revoke, suspend}
use go_r2ps_service.Service.Eudiw.Revoke.Each.{
  Kept, overwritten, present, indices_of, is_listed, is_revocable, revoke_all_lem,
}

-- How many statuses of the client there are.
abbrev pub owned : String → MemoryStore → ℕ
owned client_id m =
    present "ka" m (indices_of client_id "ka" m) + present "wia" m (indices_of client_id "wia" m)

-- Every status of the client has become `status`, every other one is as before, and so are the
-- records of who owns which index and the counters.
pub record HasSet (client_id : String) (status : ℕ) (m n : MemoryStore) : Type 0 where
  pub kept : Kept m n
  pub statuses :
      (j : String) (i : ℕ)
      → status_at j i n
        ≡ overwritten
            (is_revocable j && is_listed i (indices_of client_id j m))
            status
            (status_at j i m)

all_set :
    (client_id : String) (status : ℕ) (m : MemoryStore)
    → HasSet client_id status m (revoke_all memory_store client_id status m).1
all_set client_id status m =
    let (_, kept, statuses) = revoke_all_lem client_id status m in
    record { kept = kept; statuses = statuses }

answered :
    (client_id : String) (status : ℕ) (m : MemoryStore)
    → revoke_all memory_store client_id status m
      ≡ (ok (owned client_id m), (revoke_all memory_store client_id status m).1)
answered client_id status m =
    ap (λ r. (r, (revoke_all memory_store client_id status m).1))
      (revoke_all_lem client_id status m).0

module _ {K I : Type 0} (codec : EudiwCodec I) (cfg : WalletProviderConfig MemoryStore K I) where
  -- A request to revoke that can be read makes every status of the client invalid, in both
  -- categories, answers how many those are, and changes nothing else that the store says of
  -- statuses.
  pub revoke_lem :
      (req_data : Bytes) (client_id reason : String) (m : MemoryStore)
      → cfg.store ≡ memory_store
      → codec.parse_reason req_data ≡ some reason
      → ((revoke codec cfg req_data client_id m).0
          ≡ ok (
              codec.marshal_revoked
                (record { indices = owned client_id m; message = "wallet instance revoked" })))
        × HasSet client_id status_invalid m (revoke codec cfg req_data client_id m).1
  unfolding revoke ◌>>=◌ pure require
  revoke_lem req_data client_id reason m store parsed =
      rw (parsed, store, answered client_id status_invalid m)
        (refl, all_set client_id status_invalid m)

  -- The same for a request to suspend.
  pub suspend_lem :
      (req_data : Bytes) (client_id reason : String) (m : MemoryStore)
      → cfg.store ≡ memory_store
      → codec.parse_reason req_data ≡ some reason
      → ((suspend codec cfg req_data client_id m).0
          ≡ ok (
              codec.marshal_suspended
                (record { indices = owned client_id m; message = "wallet instance suspended" })))
        × HasSet client_id status_suspended m (suspend codec cfg req_data client_id m).1
  unfolding suspend ◌>>=◌ pure require
  suspend_lem req_data client_id reason m store parsed =
      rw (parsed, store, answered client_id status_suspended m)
        (refl, all_set client_id status_suspended m)
