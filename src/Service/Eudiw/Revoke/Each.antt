-- ===== src/Service/Eudiw/Revoke/Each.antt =====
-- What a revocation does to the statuses of the in-memory store.
use go_r2ps_service.Base.{
  ℕ, suc, ◌+◌, ◌≡◌, refl, sym, ap, ◌∙◌, inl, inr, ◌≢◌, String, Bool, true, false, ◌&&◌, ◌||◌,
  Option, none, some, List, [], ◌∷◌, arith, ◌==◌, string_eq, nat_eq, eq_iff, nat_beq, nat_beq_iff,
  length, keep, any, is_some, if◌then◌else◌, Bool-cases, Option-cases,
}
use go_r2ps_service.Base.Assoc.{lookup}
use go_r2ps_service.Base.Exec.{Result, ok, err, ◌>>=◌, pure, read}
use go_r2ps_service.Store.{StoreError}
use go_r2ps_service.Store.Memory.{
  MemoryStore, memory_store, set_status, joined, or_zero, get_client_indices,
}
use go_r2ps_service.Store.Memory.Status.{
  status_at, get_status-set_status, HasUniqueKeys, set_status-HasUniqueKeys,
}
use go_r2ps_service.Service.Eudiw.Revoke.{counted, set_each, set_in, revoke_all}

-- The indices that were recorded for a client.
abbrev pub indices_of : String → String → MemoryStore → List ℕ
indices_of client_id category m = or_zero [] (lookup (joined client_id category) m.client_indices)

abbrev pub is_listed : ℕ → List ℕ → Bool
is_listed i idxs = any (nat_beq i) idxs

-- A status that is there is overwritten where the write applies.
abbrev pub overwritten : Bool → ℕ → Option ℕ → Option ℕ
overwritten true status (some old) = some status
overwritten true status none = none
overwritten false status old = old

-- How many of the indices have a status.
abbrev pub present : String → MemoryStore → List ℕ → ℕ
present category m idxs = length (keep (λ i. is_some (status_at category i m)) idxs)

pub record Kept (m n : MemoryStore) : Type 0 where
  pub same_indices : n.client_indices ≡ m.client_indices
  pub unique : HasUniqueKeys m → HasUniqueKeys n
  pub same_counters : n.counters ≡ m.counters
  pub same_places : (j : String) (i : ℕ) → is_some (status_at j i n) ≡ is_some (status_at j i m)

is_some-overwritten :
    (b : Bool) (status : ℕ) (old : Option ℕ) → is_some (overwritten b status old) ≡ is_some old
is_some-overwritten true status none = refl
is_some-overwritten true status (some old) = refl
is_some-overwritten false status old = refl

overwritten_twice :
    (c listed : Bool) (idx i status : ℕ) (old : Option ℕ)
    → overwritten (c && listed) status (overwritten (c && nat_beq idx i) status old)
      ≡ overwritten (c && (if nat_beq i idx then true else listed)) status old
overwritten_twice c listed idx i status none = ground (arith, nat_beq_iff i idx, nat_beq_iff idx i)
overwritten_twice c listed idx i status (some old) =
    ground (arith, nat_beq_iff i idx, nat_beq_iff idx i)

overwritten_absent :
    (b : Bool) (status : ℕ) (old : Option ℕ)
    → (b ≡ true → old ≡ none)
    → overwritten b status old ≡ old
overwritten_absent true status old absent = rw (absent refl)
overwritten_absent false status old absent = refl

overwritten_present :
    (b : Bool) (status : ℕ) (old : Option ℕ)
    → (b ≡ true → old ≢ none)
    → overwritten b status old ≡ (if b then some status else old)
overwritten_present true status none found = absurd (found refl refl)
overwritten_present true status (some old) found = refl
overwritten_present false status old found = refl

same_place :
    (category j : String) (idx i : ℕ) (m : MemoryStore)
    → (category == j && nat_beq idx i) ≡ true
    → status_at j i m ≡ status_at category idx m
same_place category j idx i m e =
    let same : (category ≡ j) × (idx ≡ i) = ground (arith, e, eq_iff category j) in
    rw (same.0, same.1) refl

-- One write of a status, on every place.
status_at-set_status :
    (category : String) (idx status : ℕ) (m : MemoryStore) (j : String) (i : ℕ)
    → status_at j i (set_status category idx status m).1
      ≡ overwritten (category == j && nat_beq idx i) status (status_at j i m)
status_at-set_status category idx status m j i =
    elim (get_status-set_status category idx status m j i) [
      | inl (missing, e) ↦
          rw e (sym (overwritten_absent _ status _ λ b. same_place category j idx i m b ∙ missing))
      | inr (found, done, e) ↦
          e
          ∙ sym (
              overwritten_present _ status _
                λ b gone. found (sym (same_place category j idx i m b) ∙ gone))
    ]

abbrev is_ok : Result StoreError (Unit {0}) → Bool
is_ok (ok a) = true
is_ok (err e) = false

is_ok-set_status :
    (category : String) (idx status : ℕ) (m : MemoryStore)
    → is_ok (set_status category idx status m).0 ≡ is_some (status_at category idx m)
unfolding set_status
is_ok-set_status category idx status m = elim (Option-cases (status_at category idx m)) [
  | inl missing ↦ rw missing
  | inr (old, found) ↦ rw found
]

set_status-Kept :
    (category : String) (idx status : ℕ) (m : MemoryStore)
    → Kept m (set_status category idx status m).1
unfolding set_status
set_status-Kept category idx status m = record {
  same_indices = elim (Option-cases (status_at category idx m)) [
    | inl missing ↦ rw missing
    | inr (old, found) ↦ rw found
  ];
  unique = set_status-HasUniqueKeys category idx status m;
  same_counters = elim (Option-cases (status_at category idx m)) [
    | inl missing ↦ rw missing
    | inr (old, found) ↦ rw found
  ];
  same_places = λ j i.
      ap is_some (status_at-set_status category idx status m j i)
      ∙ is_some-overwritten (category == j && nat_beq idx i) status (status_at j i m);
}

Kept-refl : (m : MemoryStore) → Kept m m
Kept-refl m = record {
  same_indices = refl;
  unique = λ u. u;
  same_counters = refl;
  same_places = λ j i. refl;
}

Kept-trans : {l m n : MemoryStore} → Kept l m → Kept m n → Kept l n
Kept-trans a b = record {
  same_indices = b.same_indices ∙ a.same_indices;
  unique = λ u. b.unique (a.unique u);
  same_counters = b.same_counters ∙ a.same_counters;
  same_places = λ j i. b.same_places j i ∙ a.same_places j i;
}

present-Kept :
    (category : String) (idxs : List ℕ) {m n : MemoryStore}
    → Kept m n
    → present category n idxs ≡ present category m idxs
present-Kept category [] k = refl
present-Kept category (idx ∷ rest) k =
    ground (arith, present-Kept category rest k, k.same_places category idx)

counted_lem :
    {S : Type 0} (r : Result StoreError (Unit {0}) × S) (f : S → ℕ × S)
    → counted r f ≡ ((if is_ok r.0 then suc (f r.1).0 else (f r.1).0), (f r.1).1)
counted_lem (ok a, s) f = refl
counted_lem (err e, s) f = refl

set_each_lem :
    (category : String) (status : ℕ) (idxs : List ℕ) (m : MemoryStore)
    → Kept m (set_each memory_store category status idxs m).1
      × ((set_each memory_store category status idxs m).0 ≡ present category m idxs)
      × ((j : String) (i : ℕ)
          → status_at j i (set_each memory_store category status idxs m).1
            ≡ overwritten (category == j && is_listed i idxs) status (status_at j i m))
unfolding set_each
set_each_lem category status [] m = (Kept-refl m, refl, λ j i. ground arith)
set_each_lem category status (idx ∷ rest) m =
    let m' = (set_status category idx status m).1 in
    let one = set_status-Kept category idx status m in
    let (kept, n, at) = set_each_lem category status rest m' in
    rw (counted_lem (set_status category idx status m) (set_each memory_store category status rest))
      (
        Kept-trans one kept,
        ground (arith, is_ok-set_status category idx status m, n, present-Kept category rest one),
        λ j i.
            at j i
            ∙ rw (status_at-set_status category idx status m j i) (
                overwritten_twice (category == j) (is_listed i rest) idx i status
                  (status_at j i m)),
      )

-- The categories that hold the statuses of a wallet instance.
abbrev pub is_revocable : String → Bool
is_revocable j = "ka" == j || "wia" == j

overwritten_again :
    (j : String) (ka wia : Bool) (status : ℕ) (old : Option ℕ)
    → overwritten ("wia" == j && wia) status (overwritten ("ka" == j && ka) status old)
      ≡ overwritten (("ka" == j && ka) || ("wia" == j && wia)) status old
overwritten_again j ka wia status none = ground arith
overwritten_again j ka wia status (some old) = ground arith

own_indices :
    (client_id j : String) (i : ℕ) (m : MemoryStore)
    → (("ka" == j && is_listed i (indices_of client_id "ka" m))
        || ("wia" == j && is_listed i (indices_of client_id "wia" m)))
      ≡ (is_revocable j && is_listed i (indices_of client_id j m))
own_indices client_id j i m = elim (Bool-cases ("ka" == j)) [
  | inl ka ↦ rw (sym ((eq_iff "ka" j).0 ka)) (ground arith)
  | inr other ↦ elim (Bool-cases ("wia" == j)) [
    | inl wia ↦ rw (sym ((eq_iff "wia" j).0 wia)) (ground arith)
    | inr neither ↦ rw (other, neither)
  ]
]

pub revoke_all_lem :
    (client_id : String) (status : ℕ) (m : MemoryStore)
    → ((revoke_all memory_store client_id status m).0
        ≡ ok (
            present "ka" m (indices_of client_id "ka" m)
            + present "wia" m (indices_of client_id "wia" m)))
      × Kept m (revoke_all memory_store client_id status m).1
      × ((j : String) (i : ℕ)
          → status_at j i (revoke_all memory_store client_id status m).1
            ≡ overwritten
                (is_revocable j && is_listed i (indices_of client_id j m))
                status
                (status_at j i m))
unfolding revoke_all set_in ◌>>=◌ pure read get_client_indices
revoke_all_lem client_id status m =
    let (kept, n, at) = set_each_lem "ka" status (indices_of client_id "ka" m) m in
    let m' = (set_each memory_store "ka" status (indices_of client_id "ka" m) m).1 in
    let same : indices_of client_id "wia" m' ≡ indices_of client_id "wia" m =
      ap (λ c. or_zero [] (lookup (joined client_id "wia") c)) kept.same_indices in
    let (kept', n', at') = set_each_lem "wia" status (indices_of client_id "wia" m') m' in
    (
      ap ok (
          omega (
            arith,
            n,
            n',
            ap (present "wia" m') same,
            present-Kept "wia" (indices_of client_id "wia" m) kept,
          )),
      Kept-trans kept kept',
      λ j i.
          at' j i
          ∙ rw (at j i, same)
              (overwritten_again j (is_listed i (indices_of client_id "ka" m))
                  (is_listed i (indices_of client_id "wia" m)) status (status_at j i m)
                ∙ ap (λ b. overwritten b status (status_at j i m)) (own_indices client_id j i m)),
    )
