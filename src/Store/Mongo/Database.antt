-- ===== src/Store/Mongo/Database.antt =====
-- What the MongoDB store relies on of its database, and how it agrees with the in-memory store.
use go_r2ps_service.Base.{
  ℕ, suc, ◌≡◌, ◌≢◌, ◌↔◌, ◌⊎◌, String, Bool, true, false, some, ◌==◌, string_eq, if◌then◌else◌,
}
use go_r2ps_service.Base.Exec.{Result, ok, err}
use go_r2ps_service.Store.{StoreError}
use go_r2ps_service.Store.Memory.{MemoryStore, next_index}
use go_r2ps_service.Store.Memory.Status.{status_at, IsDense}
use go_r2ps_service.Store.Mongo.{MongoDbStore, StatusEntry, no_documents, Cursor}
use go_r2ps_service.Store.Mongo.Documents.{entry, Delivered, Ends}
use go_r2ps_service.Store.Run.{Answer}

module _ {W : Type 0} (db : MongoDbStore W) (counter : String → W → ℕ)
    (In : StatusEntry → W → Type 0) where
  -- An update of one document: there was none to match, or one that matches was changed. Which one
  -- it is, where several match, is not said.
  abbrev pub Updated : (StatusEntry → Bool) → (StatusEntry → StatusEntry) → W → ℕ → W → Type 0
  Updated p f w n v =
      ((n ≡ 0) × ((x : StatusEntry) → In x w → p x ≡ false) × ((x : StatusEntry) → In x v ↔ In x w))
      ⊎ ((d : StatusEntry) × (n ≡ 1)
          × In d w
          × (p d ≡ true)
          × ((x : StatusEntry) → In x v ↔ ((In x w × (x ≢ d)) ⊎ (x ≡ f d))))

  -- What the driver documents of the calls that end without an error, of a collection with the
  -- unique index that the store creates. One that fails may do anything, and nothing is said of an
  -- order of the documents.
  pub record IsDatabase : Type 0 where
    pub increment_ok :
        (category : String) (w : W) (n : ℕ)
        → (db.increment category w).0 ≡ ok n
        → (n ≡ suc (counter category w))
          × ((x : StatusEntry) → In x (db.increment category w).1 ↔ In x w)
          × ((j : String)
              → counter j (db.increment category w).1
                ≡ (if category == j then suc (counter j w) else counter j w))
    pub insert_ok :
        (d : StatusEntry) (w : W)
        → (db.statuses.insert_one d w).0 ≡ ok tt
        → ((x : StatusEntry) → In x (db.statuses.insert_one d w).1 ↔ (In x w ⊎ (x ≡ d)))
          × ((j : String) → counter j (db.statuses.insert_one d w).1 ≡ counter j w)
    pub update_ok :
        (p : StatusEntry → Bool) (f : StatusEntry → StatusEntry) (w : W) (n : ℕ)
        → (db.statuses.update_one p f w).0 ≡ ok n
        → Updated p f w n (db.statuses.update_one p f w).1
          × ((j : String) → counter j (db.statuses.update_one p f w).1 ≡ counter j w)
    pub find_one_ok :
        (p : StatusEntry → Bool) (w : W) (d : StatusEntry)
        → db.statuses.find_one p w ≡ ok d
        → In d w × (p d ≡ true)
    pub find_one_none :
        (p : StatusEntry → Bool) (w : W)
        → db.statuses.find_one p w ≡ err no_documents
        → (x : StatusEntry) → In x w
        → p x ≡ false
    pub find_ok :
        (p : StatusEntry → Bool) (w : W) (c : Cursor StatusEntry)
        → db.statuses.find p w ≡ ok c
        → ((x : StatusEntry) → Delivered x c → In x w × (p x ≡ true))
          × (Ends c → (x : StatusEntry) → In x w → p x ≡ true → Delivered x c)

module _ {W : Type 0} (counter : String → W → ℕ) (In : StatusEntry → W → Type 0) where
  -- The database holds what the in-memory store holds.
  pub record Agrees (w : W) (m : MemoryStore) : Type 0 where
    pub counters : (category : String) → counter category w ≡ next_index category m
    pub held :
        (category : String) (idx status : ℕ)
        → In (entry category idx status) w ↔ (status_at category idx m ≡ some status)
    pub dense : IsDense m

  -- The two stores end an operation alike.
  pub record Alike (r : Result StoreError Answer × W) (q : Result StoreError Answer × MemoryStore)
      : Type 0 where
    pub same : r.0 ≡ q.0
    pub agrees : Agrees r.1 q.1
