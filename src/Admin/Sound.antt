-- ===== src/Admin/Sound.antt =====
-- The admin API keeps the invariant of the statuses.
use go_r2ps_service.Base.{
  ℕ, String, Option, none, some, arith, ltb, string_eq, Bool-cases, inl, inr,
}
use go_r2ps_service.Base.Exec.{Result, ok, err}
use go_r2ps_service.Base.Int.{ℤ, pos, negsuc}
use go_r2ps_service.Protocol.{Bytes}
use go_r2ps_service.Store.{StoreError, status_suspended}
use go_r2ps_service.Store.Memory.{MemoryStore, memory_store, set_status, allocate_index}
use go_r2ps_service.Store.Memory.Sound.{IsSound, allocate_index-IsSound, set_status-IsSound}
use go_r2ps_service.Admin.{
  AdminLibrary, Route, handle, updated_reply, update_parsed, update_reply, allocated_reply,
  list_statuses, get_status, get_client_indices, get_usage, list_keys, get_key,
}

updated_reply-IsSound :
    (lib : AdminLibrary) (category : String) (idx n : ℕ)
    (r : Result StoreError (Unit {0}) × MemoryStore)
    → IsSound r.1
    → IsSound (updated_reply lib memory_store category idx n r).1
updated_reply-IsSound lib category idx n (ok _, m) s = s
updated_reply-IsSound lib category idx n (err e, m) s = s

-- `handleSetStatus` writes only the three statuses.
update_reply-IsSound :
    (lib : AdminLibrary) (category : String) (idx : Option ℤ) (body : Bytes) (m : MemoryStore)
    → IsSound m
    → IsSound (update_reply lib memory_store category idx body m).1
update_reply-IsSound lib category none body m s = s
update_reply-IsSound lib category (some idx) body m s = parsed idx (lib.parse_status body)
  where
    parsed : (idx : ℤ) (n : Option ℕ) → IsSound (update_parsed lib memory_store category idx n m).1
    parsed idx none = s
    parsed (negsuc k) (some n) = elim (Bool-cases (ltb status_suspended n)) [
      | inl large ↦ rw large s
      | inr small ↦ rw small s
    ]
    parsed (pos k) (some n) = elim (Bool-cases (ltb status_suspended n)) [
      | inl large ↦ rw large s
      | inr small ↦ rw small (
          updated_reply-IsSound lib category k n (set_status category k n m)
            (set_status-IsSound category k n m (ground (arith, small)) s))
    ]

allocated_reply-IsSound :
    (lib : AdminLibrary) (category : String) (r : Result StoreError ℕ × MemoryStore)
    → IsSound r.1
    → IsSound (allocated_reply lib memory_store category r).1
allocated_reply-IsSound lib category (ok idx, m) s = s
allocated_reply-IsSound lib category (err e, m) s = s

pub handle-IsSound :
    (lib : AdminLibrary) (route : Route) (m : MemoryStore)
    → IsSound m
    → IsSound (handle lib memory_store route m).1
unfolding handle
handle-IsSound lib (list_statuses category) m s = s
handle-IsSound lib (get_status category idx) m s = s
handle-IsSound lib (Route.set_status category idx body) m s =
    update_reply-IsSound lib category (lib.atoi idx) body m s
handle-IsSound lib (get_client_indices client_id category) m s = s
handle-IsSound lib (get_usage category idx) m s = s
handle-IsSound lib (Route.allocate_index category) m s =
    allocated_reply-IsSound lib category (allocate_index category m)
      (allocate_index-IsSound category m s)
handle-IsSound lib (list_keys client_id) m s = s
handle-IsSound lib (get_key kid) m s = s
