-- ===== src/Tests/Database.antt =====
-- A database that has room for one document, and the MongoDB store on it.
use go_r2ps_service.Base.{
  ℕ, suc, ◌≡◌, ◌↔◌, ◌⊎◌, refl, String, Bool, true, false, Option, none, some, List, [], ◌∷◌, ◌==◌,
  string_eq, if◌then◌else◌, Bool-cases, inl, inr,
}
use go_r2ps_service.Base.Assoc.{lookup}
use go_r2ps_service.Base.Exec.{Result, ok, err, ◌>>=◌, pure, require, read}
use go_r2ps_service.Base.Int.{pos}
use go_r2ps_service.Store.Memory.{memory_store, new_memory_store}
use go_r2ps_service.Store.Memory.Status.{IsDense-new}
use go_r2ps_service.Store.Mongo.{
  MongoDbStore, Collection, StatusEntry, MongoError, no_documents, failed, duplicate_key, Cursor,
  end, next, at_index, mongo_store,
}
use go_r2ps_service.Store.Mongo
use go_r2ps_service.Store.Mongo.Documents.{Delivered}
use go_r2ps_service.Store.Mongo.Database.{IsDatabase, Agrees, Updated}
use go_r2ps_service.Store.Mongo.Refines.{run_all-same}
use go_r2ps_service.Store.Mongo.Connect.{
  MongoDbConfig, ClientOptions, Driver, uri_of, tls_made, new_mongo_db_store,
}
use go_r2ps_service.Store.Mongo.Connect.Secure.{IsOpened, IsSecured, new_mongo_db_store-IsSecured}
use go_r2ps_service.Store.Run.{Operation, allocate, put, status_of, list, run_all}

-- One category that is counted up, and a collection that has room for one document.
record Slot : Type 0 where
  counts : String → ℕ
  doc : Option StatusEntry

abbrev In : StatusEntry → Slot → Type 0
In x w = w.doc ≡ some x

abbrev found : (StatusEntry → Bool) → Option StatusEntry → Result MongoError StatusEntry
found p none = err no_documents
found p (some d) = if p d then ok d else err no_documents

abbrev cursor_of : (StatusEntry → Bool) → Option StatusEntry → Cursor StatusEntry
cursor_of p none = Cursor.end
cursor_of p (some d) = if p d then Cursor.next (some d) Cursor.end else Cursor.end

abbrev inserted : StatusEntry → Slot → Option StatusEntry → Result MongoError (Unit {0}) × Slot
inserted d w none = (ok tt, record w { doc = some d })
inserted d w (some e) = (err failed, w)

abbrev updated :
    (StatusEntry → Bool)
    → (StatusEntry → StatusEntry)
    → Slot
    → Option StatusEntry
    → Result MongoError ℕ × Slot
updated p f w none = (ok 0, w)
updated p f w (some d) = if p d then (ok 1, record w { doc = some (f d) }) else (ok 0, w)

abbrev status_collection : Collection Slot StatusEntry
status_collection = record {
  insert_one = λ d w. inserted d w w.doc;
  find_one = λ p w. found p w.doc;
  find = λ p w. ok (cursor_of p w.doc);
  find_all = λ p w. err failed;
  update_one = λ p f w. updated p f w w.doc;
  replace_one = λ p d w. (err failed, w);
}

abbrev no_collection : {D : Type 0} → Collection Slot D
no_collection = record {
  insert_one = λ d w. (err failed, w);
  find_one = λ p w. err failed;
  find = λ p w. err failed;
  find_all = λ p w. err failed;
  update_one = λ p f w. (err failed, w);
  replace_one = λ p d w. (err failed, w);
}

abbrev bump : String → (String → ℕ) → String → ℕ
bump category counts j = if category == j then suc (counts j) else counts j

abbrev slot : MongoDbStore Slot
slot = record {
  increment =
      λ category w. (ok (suc (w.counts category)), record w { counts = bump category w.counts });
  statuses = status_collection;
  client_indices = no_collection;
  usage = no_collection;
  public_keys = no_collection;
  records = no_collection;
  webauthn_creds = no_collection;
}

abbrev count : String → Slot → ℕ
count category w = w.counts category

inserted_ok :
    (d : StatusEntry) (w : Slot) (o : Option StatusEntry)
    → w.doc ≡ o
    → (inserted d w o).0 ≡ ok tt
    → ((x : StatusEntry) → In x (inserted d w o).1 ↔ (In x w ⊎ (x ≡ d)))
      × ((j : String) → count j (inserted d w o).1 ≡ count j w)
inserted_ok d w none e h = (
  (λ x. ((λ at. inr (cc at)), (λ q. elim q [ inl old ↦ absurd (cc (old, e)) | inr new ↦ rw new ]))),
  λ j. refl,
)
inserted_ok d w (some c) e h = absurd (cc h)

updated_ok :
    (p : StatusEntry → Bool) (f : StatusEntry → StatusEntry) (w : Slot) (o : Option StatusEntry)
    (n : ℕ)
    → w.doc ≡ o
    → (updated p f w o).0 ≡ ok n
    → Updated slot count In p f w n (updated p f w o).1
      × ((j : String) → count j (updated p f w o).1 ≡ count j w)
updated_ok p f w none n e h =
    (inl (cc h, (λ x at. absurd (cc (at, e))), λ x. ((λ at. at), λ at. at)), λ j. refl)
updated_ok p f w (some d) n e h = elim (Bool-cases (p d)) [
  | inl hit ↦
      let one : n ≡ 1 = cc (rw hit at h) in
      rw hit (
        inr (
          d,
          one,
          e,
          hit,
          λ x. (
            (λ at. inr (cc at)),
            (λ q. elim q [ inl (old, other) ↦ absurd (other (cc (old, e))) | inr new ↦ rw new ]),
          ),
        ),
        λ j. refl,
      )
  | inr miss ↦
      let zero : n ≡ 0 = cc (rw miss at h) in
      rw miss (
        inl (
          zero,
          (λ x at. let same : x ≡ d = cc (at, e) in rw same miss),
          λ x. ((λ at. at), λ at. at),
        ),
        λ j. refl,
      )
]

found_ok :
    (p : StatusEntry → Bool) (o : Option StatusEntry) (d : StatusEntry)
    → found p o ≡ ok d
    → (o ≡ some d) × (p d ≡ true)
found_ok p none d h = absurd (cc h)
found_ok p (some x) d h = elim (Bool-cases (p x)) [
  | inl hit ↦ let same : x ≡ d = cc (rw hit at h) in (rw same, rw (← same) hit)
  | inr miss ↦ absurd (cc (rw miss at h))
]

found_none :
    (p : StatusEntry → Bool) (o : Option StatusEntry)
    → found p o ≡ err no_documents
    → (x : StatusEntry) → o ≡ some x
    → p x ≡ false
found_none p none h x at = absurd (cc at)
found_none p (some d) h x at = elim (Bool-cases (p d)) [
  | inl hit ↦ absurd (cc (rw hit at h))
  | inr miss ↦ let same : x ≡ d = cc at in rw same miss
]

cursor_of-Delivered :
    (p : StatusEntry → Bool) (o : Option StatusEntry) (x : StatusEntry)
    → Delivered x (cursor_of p o) ↔ ((o ≡ some x) × (p x ≡ true))
cursor_of-Delivered p none x = ((λ h. absurd h), λ h. absurd (cc (h.0)))
cursor_of-Delivered p (some d) x = elim (Bool-cases (p d)) [
  | inl hit ↦ rw hit (
    (λ h. elim h [ inl same ↦ (rw same, rw same hit) | inr later ↦ absurd later ]),
    λ h. inl (cc (h.0)),
  )
  | inr miss ↦
      rw miss
        ((λ h. absurd h), λ h. let same : d ≡ x = cc (h.0) in absurd (cc (rw same at miss, h.1)))
]

slot-IsDatabase : IsDatabase slot count In
slot-IsDatabase = record {
  increment_ok = λ category w n h. (cc h, (λ x. ((λ at. at), λ at. at)), λ j. refl);
  insert_ok = λ d w h. inserted_ok d w w.doc refl h;
  update_ok = λ p f w n h. updated_ok p f w w.doc n refl h;
  find_one_ok = λ p w d h. found_ok p w.doc d h;
  find_one_none = λ p w h. found_none p w.doc h;
  find_ok = λ p w c h.
      let same : cursor_of p w.doc ≡ c = cc h in
      rw (← same) (
        (λ x. (cursor_of-Delivered p w.doc x).0),
        λ ends x at hit. (cursor_of-Delivered p w.doc x).1 (at, hit),
      );
}

abbrev empty : Slot
empty = record { counts = λ j. 0; doc = none }

empty-Agrees : Agrees count In empty new_memory_store
unfolding new_memory_store lookup
empty-Agrees = record {
  counters = λ category. refl;
  held = λ category idx status. ((λ h. absurd (cc h)), λ h. absurd (cc h));
  dense = IsDense-new;
}

abbrev operations : List Operation
operations = allocate "ka" ∷ (put "ka" 0 1 ∷ (put "ka" 5 1 ∷ (status_of "ka" 0 ∷ (list "ka" ∷ []))))

run_all-same_example :
    ((run_all (mongo_store slot (pos 0)) operations empty).0
      ≡ (run_all memory_store operations new_memory_store).0)
    × Agrees count In
        (run_all (mongo_store slot (pos 0)) operations empty).1
        (run_all memory_store operations new_memory_store).1
unfolding Mongo.allocate_index Mongo.set_status Mongo.get_status Mongo.get_all_statuses
    Mongo.collect_statuses ◌>>=◌ pure
run_all-same_example =
    run_all-same slot count In slot-IsDatabase (pos 0) operations empty new_memory_store
      empty-Agrees ((λ e. cc e), ((λ e. cc e), ((λ e. cc e), ((λ e. cc e), ((λ e. cc e), tt)))))

abbrev driver : Driver Slot String ℕ ℕ
driver = record {
  read_text = λ path. some (b's' ∷ []);
  read_file = λ path. some [];
  query_escape = λ t. t;
  cert_pool = λ pem. some 1;
  load_key_pair = λ cert key. some 2;
  connect = λ o w. (ok "client", w);
  ping = λ v w. (ok tt, w);
  create_one = λ v name m w. (ok tt, w);
  open_database = λ v name. slot;
}

abbrev secure : MongoDbConfig
secure = record {
  uri = "mongodb://r2ps:${MONGODB_PASSWORD}@db";
  database = "";
  timeout = 0;
  password_path = "/secret";
  tls_enabled = true;
  ca_path = "ca.pem";
  cert_path = "cert.pem";
  key_path = "key.pem";
}

opened : (new_mongo_db_store driver secure empty).0 ≡ ok slot
unfolding new_mongo_db_store tls_made ◌>>=◌ pure require read
opened = refl

new_mongo_db_store-IsSecured_example :
    (o : ClientOptions ℕ ℕ) × IsOpened driver secure empty slot o
    × (uri_of driver secure ≡ some o.uri)
    × IsSecured driver secure o.tls
new_mongo_db_store-IsSecured_example =
    new_mongo_db_store-IsSecured driver secure empty slot refl opened
