-- ===== src/Store/Mongo/Writes.antt =====
-- Allocation and the setting of a status, in both stores.
use go_r2ps_service.Base.{
  ℕ, ◌-◌, ◌≡◌, ◌≢◌, ◌↔◌, ◌⊎◌, refl, sym, ap, ◌∙◌, String, true, false, none, some, string_eq,
  nat_eq, arith, Option-cases, inl, inr,
}
use go_r2ps_service.Base.Exec.{Result, ok, err, Exec, ◌>>=◌, next as next_of, pure}
use go_r2ps_service.Base.Int.{ℤ}
use go_r2ps_service.Store.{StoreError, unavailable, status_valid}
use go_r2ps_service.Store.Memory.{MemoryStore, memory_store, next_index}
use go_r2ps_service.Store.Memory
use go_r2ps_service.Store.Memory.Status.{
  status_at, get_status-allocate_index, get_status-set_status, allocate_index_fresh,
  set_status-IsDense, written,
}
use go_r2ps_service.Store.Mongo.{
  MongoDbStore, StatusEntry, MongoError, no_documents, failed, duplicate_key, Cursor, end, broken,
  next, at_index, mongo_store, collect_statuses, lifted, or_unavailable, some_matched,
}
use go_r2ps_service.Store.Mongo
use go_r2ps_service.Store.Mongo.Documents.{entry, at_index_iff, added_iff, replaced_iff}
use go_r2ps_service.Store.Run.{allocate, put, index, done, answered, run}
use go_r2ps_service.Store.Mongo.Database.{IsDatabase, Agrees, Alike}

↔-trans : {A B C : Type 0} → A ↔ B → B ↔ C → A ↔ C
↔-trans (f, g) (h, l) = (λ a. h (f a), λ c. g (l c))

-- An alternative, with its left side and the document on its right described in another way.
or_iff : {A B : Type 0} {x d e : StatusEntry} → A ↔ B → d ≡ e → (A ⊎ (x ≡ d)) ↔ (B ⊎ (x ≡ e))
or_iff {A} {B} {x} {d} {e} (f, g) same = (forth, back)
  where
    forth : A ⊎ (x ≡ d) → B ⊎ (x ≡ e)
    forth (inl a) = inl (f a)
    forth (inr h) = inr (h ∙ same)

    back : B ⊎ (x ≡ e) → A ⊎ (x ≡ d)
    back (inl b) = inl (g b)
    back (inr h) = inr (h ∙ sym same)

and_iff : {A B : Type 0} {x d e : StatusEntry} → A ↔ B → d ≡ e → (A × (x ≢ d)) ↔ (B × (x ≢ e))
and_iff (f, g) same =
    ((λ h. (f h.0, λ at. h.1 (at ∙ sym same))), λ h. (g h.0, λ at. h.1 (at ∙ same)))

put_some :
    (category : String) (idx value : ℕ) (m : MemoryStore) {old : ℕ}
    → status_at category idx m ≡ some old
    → (j : String) (i : ℕ)
    → written category idx value j i (status_at j i m)
      ≡ status_at j i (Memory.set_status category idx value m).1
put_some category idx value m found j i = elim (get_status-set_status category idx value m j i) [
  | inl (missing, _) ↦ absurd (cc (missing, found))
  | inr (_, _, now) ↦ sym now
]

module _ {W : Type 0} (db : MongoDbStore W) (counter : String → W → ℕ)
    (In : StatusEntry → W → Type 0) (k : IsDatabase db counter In) where
  lifted-elim :
      {A B : Type 0} (w : W) (P : Result StoreError B × W → Type 0) (x : Exec W MongoError A)
      (f : A → Exec W StoreError B)
      → P (err unavailable, (x w).1)
      → ((v : A) → (x w).0 ≡ ok v → P (f v (x w).1))
      → P ((lifted or_unavailable x >>= f) w)
  unfolding ◌>>=◌
  lifted-elim {A} w P x f p q = go (x w).0 q
    where
      go :
          (r : Result MongoError A)
          → ((v : A) → r ≡ ok v → P (f v (x w).1))
          → P (next_of (or_unavailable r) f (x w).1)
      go (ok v) q = q v refl
      go (err e) q = p

  allocated :
      (category : String) (w : W) (m : MemoryStore) (n : ℕ)
      → Agrees counter In w m
      → (db.increment category w).0 ≡ ok n
      → (db.statuses.insert_one
          (record { category = category; idx = n - 1; status = status_valid })
          (db.increment category w).1).0
        ≡ ok tt
      → Alike counter In
          (
            ok (index (n - 1)),
            (db.statuses.insert_one
                (record { category = category; idx = n - 1; status = status_valid })
                (db.increment category w).1).1,
          )
          (run memory_store (allocate category) m)
  allocated category w m n a incremented inserted =
      let (count, kept, counted) = k.increment_ok category w n incremented in
      let w1 = (db.increment category w).1 in
      let (more, still) =
        k.insert_ok (record { category = category; idx = n - 1; status = status_valid }) w1
          inserted in
      let at : n - 1 ≡ next_index category m = omega (arith, count, a.counters category) in
      let (fresh, given, _, dense) = allocate_index_fresh category m a.dense in
      record {
        same = rw given (ap (λ i. ok (index i)) at);
        agrees = record {
          counters = λ j.
              still j
              ∙ counted j
              ∙ rw (a.counters j) (sym (get_status-allocate_index category m j 0).2);
          held = λ j i status. rw (get_status-allocate_index category m j i).1 (
              ↔-trans (more (entry j i status)) (
                ↔-trans
                  (or_iff (↔-trans (kept (entry j i status)) (a.held j i status))
                    (ap (λ n. entry category n status_valid) at))
                  (added_iff category (next_index category m) status_valid j i status
                    (status_at j i m) (λ c k. rw (← c, ← k) fresh))));
          dense = dense;
        };
      }

  pub allocate-Alike :
      (now : ℤ) (category : String) (w : W) (m : MemoryStore)
      → Agrees counter In w m
      → (run (mongo_store db now) (allocate category) w).0 ≢ err unavailable
      → Alike counter In
          (run (mongo_store db now) (allocate category) w)
          (run memory_store (allocate category) m)
  unfolding Mongo.allocate_index pure
  allocate-Alike now category w m a =
      let P : Result StoreError ℕ × W → Type 0 = λ r.
        answered index r.0 ≢ err unavailable
        → Alike counter In (answered index r.0, r.1) (run memory_store (allocate category) m) in
      lifted-elim w P _ _ (λ h. absurd (h refl))
        λ n incremented.
          lifted-elim (db.increment category w).1 P _ _ (λ h. absurd (h refl))
            λ _ inserted h. allocated category w m n a incremented inserted

  -- Nothing is at a place whose filter matched nothing.
  pub unmatched :
      (category : String) (idx : ℕ) (w : W) (m : MemoryStore)
      → Agrees counter In w m
      → ((x : StatusEntry) → In x w → at_index category idx x ≡ false)
      → status_at category idx m ≡ none
  unmatched category idx w m a no_match = elim (Option-cases (status_at category idx m)) [
    | inl missing ↦ missing
    | inr (status, found) ↦
        let x = entry category idx status in
        let miss = no_match x ((a.held category idx status).1 found) in
        absurd (cc (miss, (at_index_iff category idx x).1 (refl, refl)))
  ]

  -- The status of a document that the filter of a place matches.
  pub matched :
      (category : String) (idx : ℕ) (w : W) (m : MemoryStore) (d : StatusEntry)
      → Agrees counter In w m
      → In d w
      → at_index category idx d ≡ true
      → status_at category idx m ≡ some d.status
  matched category idx w m d a here hit =
      let (c, k) = (at_index_iff category idx d).0 hit in
      rw (← c, ← k) ((a.held d.category d.idx d.status).0 here)

  put_none :
      (category : String) (idx value : ℕ) (w v : W) (m : MemoryStore)
      → Agrees counter In w m
      → status_at category idx m ≡ none
      → ((x : StatusEntry) → In x v ↔ In x w)
      → ((j : String) → counter j v ≡ counter j w)
      → Alike counter In
          (answered (λ _. done) (some_matched (ok 0)), v)
          (run memory_store (put category idx value) m)
  unfolding Memory.set_status
  put_none category idx value w v m a missing same still = rw missing (record {
    same = refl;
    agrees = record {
      counters = λ j. still j ∙ a.counters j;
      held = λ j i status. ↔-trans (same (entry j i status)) (a.held j i status);
      dense = a.dense;
    };
  })

  put_one :
      (category : String) (idx value : ℕ) (w v : W) (m : MemoryStore) (d : StatusEntry)
      → Agrees counter In w m
      → In d w
      → at_index category idx d ≡ true
      → ((x : StatusEntry) → In x v ↔ ((In x w × (x ≢ d)) ⊎ (x ≡ record d { status = value })))
      → ((j : String) → counter j v ≡ counter j w)
      → Alike counter In
          (answered (λ _. done) (some_matched (ok 1)), v)
          (run memory_store (put category idx value) m)
  put_one category idx value w v m d a here hit changed still =
      let found = matched category idx w m d a here hit in
      let (c, k) = (at_index_iff category idx d).0 hit in
      let old : d ≡ entry category idx d.status = rw (← c, ← k) refl in
      let new : record d { status = value } ≡ entry category idx value = rw (← c, ← k) refl in
      record {
        same = unfold Memory.set_status in rw found;
        agrees = record {
          counters = λ j. still j ∙ a.counters j ∙ unfold Memory.set_status in rw found;
          held = λ j i status. rw (← put_some category idx value m found j i) (
              ↔-trans (changed (entry j i status)) (
                ↔-trans (or_iff (and_iff (a.held j i status) old) new) (
                  replaced_iff category idx value j i status (status_at j i m) d.status
                    (λ e f. rw (← e, ← f) found))));
          dense = set_status-IsDense category idx value m a.dense;
        };
      }

  pub put-Alike :
      (category : String) (idx value : ℕ) (w : W) (m : MemoryStore) (r : Result MongoError ℕ × W)
      → Agrees counter In w m
      → db.statuses.update_one (at_index category idx) (λ d. record d { status = value }) w ≡ r
      → answered (λ _. done) (some_matched r.0) ≢ err unavailable
      → Alike counter In
          (answered (λ _. done) (some_matched r.0), r.1)
          (run memory_store (put category idx value) m)
  put-Alike category idx value w m (ok n, v) a q h =
      let (updated, still) =
        k.update_ok (at_index category idx) (λ d. record d { status = value }) w n (rw q) in
      elim updated [
        | inl (zero, no_match, same) ↦ rw zero (
            put_none category idx value w v m a (unmatched category idx w m a no_match)
              (rw q at same) (rw q at still))
        | inr (d, one, here, hit, changed) ↦
            rw one (put_one category idx value w v m d a here hit (rw q at changed) (rw q at still))
      ]
  put-Alike category idx value w m (err e, v) a q h = absurd (h refl)
