-- ===== src/Store/Memory/Status.antt =====
-- Status list indices: they are handed out once each, in order, and a write of one status changes
-- that one only.
use go_r2ps_service.Base.{
  ℕ, suc, ◌≡◌, refl, ◌∙◌, ◌≢◌, ◌⊎◌, inl, inr, String, ◌&&◌, Option, none, some, [], arith, ◌==◌,
  string_eq, nat_eq, eq_iff, nat_beq, ltb, nat_beq_iff, if◌then◌else◌, Option-cases, Bool-cases,
  is_some, eq_self,
}
use go_r2ps_service.Base.Assoc.{lookup, insert, lookup-insert}
use go_r2ps_service.Base.Assoc.Unique.{Unique, insert-Unique}
use go_r2ps_service.Base.Exec.{ok, err}
use go_r2ps_service.Store.{not_found, status_valid}
use go_r2ps_service.Store.Memory.{
  MemoryStore, next_index, category_statuses, allocate_index, set_status, or_zero, new_memory_store,
}

abbrev pub status_at : String → ℕ → MemoryStore → Option ℕ
status_at category idx m = lookup idx (category_statuses category m)

-- Exactly the indices below the category's counter have a status.
abbrev pub IsDense : MemoryStore → Type 0
IsDense m =
    (category : String) (idx : ℕ)
    → is_some (status_at category idx m) ≡ ltb idx (next_index category m)

-- In the map of a category each index stands once, as in a Go map.
abbrev pub HasUniqueKeys : MemoryStore → Type 0
HasUniqueKeys m = (category : String) → Unique (category_statuses category m)

module _ (category : String) (m : MemoryStore) (j : String) where
  -- What a write into one category's map does to every status.
  pub category_statuses-insert :
      (idx status : ℕ)
      → or_zero []
          (lookup j (insert category (insert idx status (category_statuses category m)) m.statuses))
        ≡ (if category == j
            then insert idx status (category_statuses category m)
            else category_statuses j m)
  category_statuses-insert idx status = ground (
    arith,
    lookup-insert category j (insert idx status (category_statuses category m)) m.statuses,
    eq_iff category j,
  )

-- The status at one place after a write there and elsewhere.
abbrev pub written : String → ℕ → ℕ → String → ℕ → Option ℕ → Option ℕ
written category idx status j i old = if category == j && nat_beq idx i then some status else old

abbrev after : String → ℕ → ℕ → MemoryStore → MemoryStore
after category idx status m = record m {
  statuses = insert category (insert idx status (category_statuses category m)) m.statuses;
}

status_at-after :
    (category : String) (idx status : ℕ) (m : MemoryStore) (j : String) (i : ℕ)
    → status_at j i (after category idx status m)
      ≡ written category idx status j i (status_at j i m)
status_at-after category idx status m j i =
    rw (category_statuses-insert category m j idx status) (elim (Bool-cases (category == j)) [
      | inl same ↦ rw (
        same,
        lookup-insert idx i status (category_statuses category m),
        (eq_iff category j).0 same,
      )
      | inr other ↦ rw other
    ])

-- Allocation gives the next index of its category, marks it valid, and changes no other status.
pub get_status-allocate_index :
    (category : String) (m : MemoryStore) (j : String) (i : ℕ)
    → ((allocate_index category m).0 ≡ ok (next_index category m))
      × (status_at j i (allocate_index category m).1
          ≡ written category (next_index category m) status_valid j i (status_at j i m))
      × (next_index j (allocate_index category m).1
          ≡ (if category == j then suc (next_index j m) else next_index j m))
unfolding allocate_index
get_status-allocate_index category m j i = (
  refl,
  status_at-after category (next_index category m) status_valid m j i,
  ground
      (arith, lookup-insert category j (suc (next_index category m)) m.counters, eq_iff category j),
)

-- A status is written exactly if there is one, and no other status changes; if there is none, the
-- store stays as it is.
pub get_status-set_status :
    (category : String) (idx status : ℕ) (m : MemoryStore) (j : String) (i : ℕ)
    → ((status_at category idx m ≡ none)
        × ((set_status category idx status m) ≡ (err not_found, m)))
      ⊎ ((status_at category idx m ≢ none)
          × ((set_status category idx status m).0 ≡ ok tt)
          × (status_at j i (set_status category idx status m).1
              ≡ written category idx status j i (status_at j i m)))
unfolding set_status
get_status-set_status category idx status m j i = elim (Option-cases (status_at category idx m)) [
  | inl missing ↦ inl (missing, rw missing)
  | inr (old, found) ↦
      inr ((λ e. cc (found, e)), rw found, rw found (status_at-after category idx status m j i))
]

pub IsDense-new : IsDense new_memory_store
unfolding new_memory_store lookup
IsDense-new category idx = ground arith

-- From a dense store allocation gives an index that was never in use, and the store stays dense.
pub allocate_index_fresh :
    (category : String) (m : MemoryStore)
    → IsDense m
    → (status_at category (next_index category m) m ≡ none)
      × ((allocate_index category m).0 ≡ ok (next_index category m))
      × (status_at category (next_index category m) (allocate_index category m).1
          ≡ some status_valid)
      × IsDense (allocate_index category m).1
allocate_index_fresh category m d = (
  ground (arith, d category (next_index category m)),
  (get_status-allocate_index category m category 0).0,
  (get_status-allocate_index category m category (next_index category m)).1
      ∙ rw (eq_self category, (nat_beq_iff (next_index category m) (next_index category m)).1 refl),
  λ j i.
      let (_, status, next) = get_status-allocate_index category m j i in
      ground (arith, status, next, d j i, eq_iff category j),
)

pub set_status-IsDense :
    (category : String) (idx status : ℕ) (m : MemoryStore)
    → IsDense m
    → IsDense (set_status category idx status m).1
unfolding set_status
set_status-IsDense category idx status m d j i = elim (Option-cases (status_at category idx m)) [
  | inl missing ↦ rw missing (d j i)
  | inr (old, found) ↦
      rw found
        (ground (arith, status_at-after category idx status m j i, d j i, eq_iff category j, found))
]

pub HasUniqueKeys-new : HasUniqueKeys new_memory_store
unfolding new_memory_store lookup
HasUniqueKeys-new category = tt

HasUniqueKeys-after :
    (category : String) (idx status : ℕ) (m : MemoryStore)
    → HasUniqueKeys m
    → HasUniqueKeys (after category idx status m)
HasUniqueKeys-after category idx status m u j =
    rw (category_statuses-insert category m j idx status) (elim (Bool-cases (category == j)) [
      | inl same ↦ rw same (insert-Unique idx status (category_statuses category m) (u category))
      | inr other ↦ rw other (u j)
    ])

pub allocate_index-HasUniqueKeys :
    (category : String) (m : MemoryStore)
    → HasUniqueKeys m
    → HasUniqueKeys (allocate_index category m).1
unfolding allocate_index
allocate_index-HasUniqueKeys category m =
    HasUniqueKeys-after category (next_index category m) status_valid m

pub set_status-HasUniqueKeys :
    (category : String) (idx status : ℕ) (m : MemoryStore)
    → HasUniqueKeys m
    → HasUniqueKeys (set_status category idx status m).1
unfolding set_status
set_status-HasUniqueKeys category idx status m u = elim (Option-cases (status_at category idx m)) [
  | inl missing ↦ rw missing u
  | inr (old, found) ↦ rw found (HasUniqueKeys-after category idx status m u)
]
