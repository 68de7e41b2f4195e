-- ===== src/Store/Memory/Sound.antt =====
-- The invariant of the statuses: indices without gaps, each once, with one of the three statuses.
use go_r2ps_service.Base.{
  ℕ, ◌≤◌, inl, inr, String, ◌&&◌, Option, none, some, arith, ◌==◌, string_eq, nat_beq, Bool-cases,
}
use go_r2ps_service.Base.Assoc.{lookup}
use go_r2ps_service.Store.{PublicKeyInfo, status_valid, status_suspended}
use go_r2ps_service.Store.Memory.{
  MemoryStore, next_index, allocate_index, set_status, record_wua, put_public_key, new_memory_store,
}
use go_r2ps_service.Store.Memory.Status.{
  status_at, written, IsDense, HasUniqueKeys, IsDense-new, HasUniqueKeys-new, allocate_index_fresh,
  set_status-IsDense, allocate_index-HasUniqueKeys, set_status-HasUniqueKeys,
  get_status-allocate_index, get_status-set_status,
}

abbrev pub IsKnown : Option ℕ → Type 0
IsKnown none = Unit
IsKnown (some status) = status ≤ status_suspended

pub record IsSound (m : MemoryStore) : Type 0 where
  pub dense : IsDense m
  pub unique : HasUniqueKeys m
  pub known : (category : String) (idx : ℕ) → IsKnown (status_at category idx m)

pub IsSound-new : IsSound new_memory_store
unfolding new_memory_store lookup
IsSound-new = record { dense = IsDense-new; unique = HasUniqueKeys-new; known = λ category idx. tt }

written-IsKnown :
    (category : String) (idx status : ℕ) (j : String) (i : ℕ) (old : Option ℕ)
    → status ≤ status_suspended
    → IsKnown old
    → IsKnown (written category idx status j i old)
written-IsKnown category idx status j i old le k =
    elim (Bool-cases (category == j && nat_beq idx i)) [
      | inl here ↦ rw here le
      | inr there ↦ rw there k
    ]

pub allocate_index-IsSound :
    (category : String) (m : MemoryStore) → IsSound m → IsSound (allocate_index category m).1
allocate_index-IsSound category m s = record {
  dense = (allocate_index_fresh category m s.dense).3;
  unique = allocate_index-HasUniqueKeys category m s.unique;
  known = λ j i. rw (get_status-allocate_index category m j i).1 (
      written-IsKnown category (next_index category m) status_valid j i _ (omega arith)
        (s.known j i));
}

pub set_status-IsSound :
    (category : String) (idx status : ℕ) (m : MemoryStore)
    → status ≤ status_suspended
    → IsSound m
    → IsSound (set_status category idx status m).1
set_status-IsSound category idx status m le s = record {
  dense = set_status-IsDense category idx status m s.dense;
  unique = set_status-HasUniqueKeys category idx status m s.unique;
  known = λ j i. elim (get_status-set_status category idx status m j i) [
    | inl (_, e) ↦ rw e (s.known j i)
    | inr (_, _, e) ↦ rw e (written-IsKnown category idx status j i _ le (s.known j i))
  ];
}

pub record_wua-IsSound :
    (client_id category : String) (idx : ℕ) (m : MemoryStore)
    → IsSound m
    → IsSound (record_wua client_id category idx m).1
unfolding record_wua
record_wua-IsSound client_id category idx m s = record {
  dense = s.dense;
  unique = s.unique;
  known = s.known;
}

pub put_public_key-IsSound :
    (key : PublicKeyInfo) (m : MemoryStore) → IsSound m → IsSound (put_public_key key m).1
unfolding put_public_key
put_public_key-IsSound key m s = record { dense = s.dense; unique = s.unique; known = s.known }
