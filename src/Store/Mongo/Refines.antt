-- ===== src/Store/Mongo/Refines.antt =====
-- The MongoDB store gives the answers of the in-memory store.
use std.Path.{fun_ext}
use go_r2ps_service.Base.{
  All, ℕ, ◌≡◌, ◌≢◌, refl, sym, ap, ◌∙◌, String, true, List, [], ◌∷◌, ◌==◌, string_eq, nat_eq,
  eq_iff, eq_self, Option-cases, inl, inr,
}
use go_r2ps_service.Base.Assoc.{Assoc, lookup}
use go_r2ps_service.Base.Exec.{Result, ok, err}
use go_r2ps_service.Base.Int.{ℤ}
use go_r2ps_service.Store.{StoreError, unavailable}
use go_r2ps_service.Store.Memory.{MemoryStore, memory_store, next_index}
use go_r2ps_service.Store.Memory
use go_r2ps_service.Store.Memory.Status.{status_at}
use go_r2ps_service.Store.Mongo.{
  MongoDbStore, StatusEntry, MongoError, no_documents, failed, duplicate_key, Cursor, end, broken,
  next, at_index, mongo_store, collect_statuses, lifted, or_unavailable, some_matched,
}
use go_r2ps_service.Store.Mongo
use go_r2ps_service.Store.Mongo.Documents.{
  entry, Delivered, Holds, at_index_iff, collect_statuses_failed, collect_statuses-Holds,
}
use go_r2ps_service.Store.Run.{
  Operation, allocate, status_of, put, list, status, statuses, answered, run, run_all,
}
use go_r2ps_service.Store.Mongo.Database.{IsDatabase, Agrees, Alike}
use go_r2ps_service.Store.Mongo.Writes.{allocate-Alike, put-Alike, matched, unmatched}

module _ {W : Type 0} (db : MongoDbStore W) (counter : String → W → ℕ)
    (In : StatusEntry → W → Type 0) (k : IsDatabase db counter In) where
  status_of-Alike :
      (category : String) (idx : ℕ) (w : W) (m : MemoryStore) (r : Result MongoError StatusEntry)
      → Agrees counter In w m
      → db.statuses.find_one (at_index category idx) w ≡ r
      → answered status (Mongo.mapped (λ d. d.status) (Mongo.or_missing r)) ≢ err unavailable
      → answered status (Mongo.mapped (λ d. d.status) (Mongo.or_missing r))
        ≡ answered status (Memory.get_status category idx m)
  unfolding Memory.get_status
  status_of-Alike category idx w m (ok d) a q h =
      let (here, hit) = k.find_one_ok (at_index category idx) w d q in
      rw (matched db counter In k category idx w m d a here hit)
  status_of-Alike category idx w m (err no_documents) a q h =
      rw
        (unmatched db counter In k category idx w m a (k.find_one_none (at_index category idx) w q))
  status_of-Alike category idx w m (err duplicate_key) a q h = absurd (h refl)
  status_of-Alike category idx w m (err failed) a q h = absurd (h refl)

  -- What the map holds at an index is the status in the other store.
  collected_at :
      (category : String) (w : W) (m : MemoryStore) (c : Cursor StatusEntry) (r : Assoc ℕ ℕ) (i : ℕ)
      → Agrees counter In w m
      → ((x : StatusEntry) → Delivered x c → In x w × ((x.category == category) ≡ true))
      → ((x : StatusEntry) → In x w → (x.category == category) ≡ true → Delivered x c)
      → Holds [] c r i
      → lookup i r ≡ status_at category i m
  unfolding lookup
  collected_at category w m c r i a sound complete (inr (d, given, at, held)) =
      let (here, same) = sound d given in
      held
      ∙ sym (
          matched db counter In k category i w m d a here
            ((at_index_iff category i d).1 ((eq_iff d.category category).0 same, at)))
  collected_at category w m c r i a sound complete (inl (none_given, held)) =
      held
      ∙ sym (elim (Option-cases (status_at category i m)) [
        | inl missing ↦ missing
        | inr (value, found) ↦
            let x = entry category i value in
            let given = complete x ((a.held category i value).1 found) (eq_self category) in
            absurd (none_given x given refl)
      ])

  list-Alike :
      (category : String) (w : W) (m : MemoryStore) (c : Cursor StatusEntry)
      (r : Result StoreError (Assoc ℕ ℕ))
      → Agrees counter In w m
      → db.statuses.find (λ d. d.category == category) w ≡ ok c
      → collect_statuses [] c ≡ r
      → answered (λ n. statuses (λ i. lookup i n)) r ≢ err unavailable
      → answered (λ n. statuses (λ i. lookup i n)) r
        ≡ answered (λ n. statuses (λ i. lookup i n)) (Memory.get_all_statuses category m)
  unfolding Memory.get_all_statuses
  list-Alike category w m c (ok n) a q collected h =
      let (sound, complete) = k.find_ok (λ d. d.category == category) w c q in
      let (ends, holds) = collect_statuses-Holds [] c n collected in
      ap (λ f. ok (statuses f))
        (fun_ext (λ i. collected_at category w m c n i a sound (complete ends) (holds i)))
  list-Alike category w m c (err e) a q collected h =
      absurd (h (ap err (collect_statuses_failed [] c e collected)))

  listed-Alike :
      (category : String) (w : W) (m : MemoryStore) (r : Result MongoError (Cursor StatusEntry))
      → Agrees counter In w m
      → db.statuses.find (λ d. d.category == category) w ≡ r
      → answered (λ n. statuses (λ i. lookup i n)) (Mongo.collected_statuses r) ≢ err unavailable
      → answered (λ n. statuses (λ i. lookup i n)) (Mongo.collected_statuses r)
        ≡ answered (λ n. statuses (λ i. lookup i n)) (Memory.get_all_statuses category m)
  listed-Alike category w m (ok c) a q h =
      list-Alike category w m c (collect_statuses [] c) a q refl h
  listed-Alike category w m (err e) a q h = absurd (h refl)

  -- An operation on statuses of the MongoDB store that does not answer with an error of the
  -- database answers as the in-memory store does where the two agree, and they agree afterwards.
  pub run-Alike :
      (now : ℤ) (op : Operation) (w : W) (m : MemoryStore)
      → Agrees counter In w m
      → (run (mongo_store db now) op w).0 ≢ err unavailable
      → Alike counter In (run (mongo_store db now) op w) (run memory_store op m)
  unfolding Mongo.get_status Mongo.set_status Mongo.get_all_statuses
  run-Alike now (allocate category) w m a h = allocate-Alike db counter In k now category w m a h
  run-Alike now (status_of category idx) w m a h = record {
    same = status_of-Alike category idx w m _ a refl h;
    agrees = a;
  }
  run-Alike now (put category idx value) w m a h =
      put-Alike db counter In k category idx value w m _ a refl h
  run-Alike now (list category) w m a h = record {
    same = listed-Alike category w m _ a refl h;
    agrees = a;
  }

  -- Whatever status operations are run one after another, over a database that keeps a set of
  -- documents in no order, if the MongoDB store answers none of them with an error of the database,
  -- it gives the answers of the in-memory store where the two agree at the start, and they agree in
  -- the end.
  pub run_all-same :
      (now : ℤ) (ops : List Operation) (w : W) (m : MemoryStore)
      → Agrees counter In w m
      → All (λ r. r ≢ err unavailable) (run_all (mongo_store db now) ops w).0
      → ((run_all (mongo_store db now) ops w).0 ≡ (run_all memory_store ops m).0)
        × Agrees counter In (run_all (mongo_store db now) ops w).1 (run_all memory_store ops m).1
  run_all-same now [] w m a h = (refl, a)
  run_all-same now (op ∷ ops) w m a (one, more) =
      let step = run-Alike now op w m a one in
      let (same, agrees) =
        run_all-same now ops (run (mongo_store db now) op w).1 (run memory_store op m).1 step.agrees
          more in
      (rw (step.same, same), agrees)
