-- ===== src/Store/Mongo.antt =====
-- internal/store/mongodb.go: the MongoDB store over the driver, which is a parameter. `W` is the
-- state of the database. A filter is given as the documents that it matches, and a `$set` as its
-- effect on a document. Timeouts end a call of the driver with an error.
pub mod Documents
pub mod Database
pub mod Writes
pub mod Refines
pub mod Connect
use go_r2ps_service.Base.{
  ℕ, ◌-◌, String, Bool, true, false, ◌&&◌, ◌||◌, Option, none, some, List, [], ◌∷◌, map, ◌==◌,
  string_eq, nat_eq, bytes_eq, nat_beq, if◌then◌else◌,
}
use go_r2ps_service.Base.Assoc.{Assoc, insert}
use go_r2ps_service.Base.Exec.{Result, ok, err, Exec, ◌>>=◌, pure}
use go_r2ps_service.Base.Int.{ℤ}
use go_r2ps_service.Protocol.{Bytes}
use go_r2ps_service.Store.{
  PublicKeyInfo, WebAuthnCredential, StoreError, not_found, unavailable, Store, status_valid,
}

pub record StatusEntry : Type 0 where
  pub category : String
  pub idx : ℕ
  pub status : ℕ

pub record ClientIndexEntry : Type 0 where
  pub client_id : String
  pub category : String
  pub idx : ℕ

pub record UsageEntry : Type 0 where
  pub category : String
  pub idx : ℕ
  pub used_at : ℤ

pub record OpaqueRecordDoc : Type 0 where
  pub client_id : String
  pub context : String
  pub stored : Bytes

pub record WebAuthnCredDoc : Type 0 where
  pub client_id : String
  pub context : String
  pub cred : WebAuthnCredential

pub data MongoError : Type 0 where
  no_documents duplicate_key failed : MongoError

-- What a cursor will answer: documents, of which one may not decode, up to an end or an error.
pub data Cursor (D : Type 0) : Type 0 where
  end broken : Cursor D
  next : Option D → Cursor D → Cursor D

-- `find_all` is `Find` with `cursor.All`; `update_one` answers the matched count; `replace_one` is
-- an upsert.
pub record Collection (W D : Type 0) : Type 0 where
  pub insert_one : D → Exec W MongoError (Unit {0})
  pub find_one : (D → Bool) → W → Result MongoError D
  pub find : (D → Bool) → W → Result MongoError (Cursor D)
  pub find_all : (D → Bool) → W → Result MongoError (List D)
  pub update_one : (D → Bool) → (D → D) → Exec W MongoError ℕ
  pub replace_one : (D → Bool) → D → Exec W MongoError (Unit {0})

-- The collections; of the counters only `FindOneAndUpdate` with `$inc` by one and an upsert is
-- used, which answers the new value, a positive one.
pub record MongoDbStore (W : Type 0) : Type 0 where
  pub increment : String → Exec W MongoError ℕ
  pub statuses : Collection W StatusEntry
  pub client_indices : Collection W ClientIndexEntry
  pub usage : Collection W UsageEntry
  pub public_keys : Collection W PublicKeyInfo
  pub records : Collection W OpaqueRecordDoc
  pub webauthn_creds : Collection W WebAuthnCredDoc

-- The errors: any, `ErrNoDocuments` apart, and a matched count of 0.
abbrev pub or_unavailable : {A : Type 0} → Result MongoError A → Result StoreError A
or_unavailable (ok a) = ok a
or_unavailable (err e) = err unavailable

abbrev pub or_missing : {A : Type 0} → Result MongoError A → Result StoreError A
or_missing (ok a) = ok a
or_missing (err no_documents) = err not_found
or_missing (err duplicate_key) = err unavailable
or_missing (err failed) = err unavailable

abbrev pub some_matched : Result MongoError ℕ → Result StoreError (Unit {0})
some_matched (ok n) = if nat_beq n 0 then err not_found else ok tt
some_matched (err e) = err unavailable

abbrev pub or_recorded : Result MongoError (Unit {0}) → Result StoreError (Unit {0})
or_recorded (ok a) = ok tt
or_recorded (err duplicate_key) = ok tt
or_recorded (err no_documents) = err unavailable
or_recorded (err failed) = err unavailable

abbrev pub was_used : Result MongoError UsageEntry → Result StoreError Bool
was_used (ok d) = ok true
was_used (err no_documents) = ok false
was_used (err duplicate_key) = err unavailable
was_used (err failed) = err unavailable

abbrev pub mapped : {A B : Type 0} → (A → B) → Result StoreError A → Result StoreError B
mapped f (ok a) = ok (f a)
mapped f (err e) = err e

abbrev pub lifted :
    {W A B : Type 0}
    → (Result MongoError A → Result StoreError B)
    → Exec W MongoError A
    → Exec W StoreError B
lifted f m w = (f (m w).0, (m w).1)

-- The loops over a cursor, with the map or the slice made so far.
unfoldable pub collect_statuses : Assoc ℕ ℕ → Cursor StatusEntry → Result StoreError (Assoc ℕ ℕ)
collect_statuses m Cursor.end = ok m
collect_statuses m Cursor.broken = err unavailable
collect_statuses m (Cursor.next none c) = err unavailable
collect_statuses m (Cursor.next (some d) c) = collect_statuses (insert d.idx d.status m) c

unfoldable pub collect_indices : Cursor ClientIndexEntry → Result StoreError (List ℕ)
collect_indices Cursor.end = ok []
collect_indices Cursor.broken = err unavailable
collect_indices (Cursor.next none c) = err unavailable
collect_indices (Cursor.next (some d) c) = mapped (λ ids. d.idx ∷ ids) (collect_indices c)

abbrev pub collected_statuses :
    Result MongoError (Cursor StatusEntry) → Result StoreError (Assoc ℕ ℕ)
collected_statuses (ok c) = collect_statuses [] c
collected_statuses (err e) = err unavailable

abbrev pub collected_indices :
    Result MongoError (Cursor ClientIndexEntry) → Result StoreError (List ℕ)
collected_indices (ok c) = collect_indices c
collected_indices (err e) = err unavailable

abbrev pub some_docs :
    Result MongoError (List WebAuthnCredDoc) → Result StoreError (List WebAuthnCredential)
some_docs (ok []) = err not_found
some_docs (ok (d ∷ ds)) = ok (map (λ x. x.cred) (d ∷ ds))
some_docs (err e) = err unavailable

abbrev pub at_index : String → ℕ → StatusEntry → Bool
at_index category idx d = d.category == category && d.idx == idx

abbrev pub of_record : String → String → OpaqueRecordDoc → Bool
of_record client_id context d = d.client_id == client_id && d.context == context

abbrev pub of_client : String → String → WebAuthnCredDoc → Bool
of_client client_id context d = d.client_id == client_id && d.context == context

module _ {W : Type 0} (db : MongoDbStore W) where
  -- The counter is incremented first, and stays so if the insertion fails.
  unfoldable pub allocate_index : String → Exec W StoreError ℕ
  allocate_index category = do
    value ← lifted or_unavailable (db.increment category)
    _ ← lifted or_unavailable (
        db.statuses.insert_one
          (record { category = category; idx = value - 1; status = status_valid }))
    pure (value - 1)

  unfoldable pub get_status : String → ℕ → W → Result StoreError ℕ
  get_status category idx w =
      mapped (λ d. d.status) (or_missing (db.statuses.find_one (at_index category idx) w))

  unfoldable pub set_status : String → ℕ → ℕ → Exec W StoreError (Unit {0})
  set_status category idx status =
      lifted some_matched
        (db.statuses.update_one (at_index category idx) (λ d. record d { status = status }))

  unfoldable pub get_all_statuses : String → W → Result StoreError (Assoc ℕ ℕ)
  get_all_statuses category w =
      collected_statuses (db.statuses.find (λ d. d.category == category) w)

  abbrev pub record_wua : String → String → ℕ → Exec W StoreError (Unit {0})
  record_wua client_id category idx = lifted or_unavailable (
      db.client_indices.insert_one
        (record { client_id = client_id; category = category; idx = idx }))

  abbrev pub get_client_indices : String → String → W → Result StoreError (List ℕ)
  get_client_indices client_id category w =
      collected_indices
        (db.client_indices.find (λ d. d.client_id == client_id && d.category == category) w)

  abbrev pub record_usage : ℤ → String → ℕ → Exec W StoreError (Unit {0})
  record_usage now category idx =
      lifted or_recorded
        (db.usage.insert_one (record { category = category; idx = idx; used_at = now }))

  abbrev pub is_used : String → ℕ → W → Result StoreError Bool
  is_used category idx w =
      was_used (db.usage.find_one (λ d. d.category == category && d.idx == idx) w)

  abbrev pub put_public_key : PublicKeyInfo → Exec W StoreError (Unit {0})
  put_public_key key =
      lifted or_unavailable (db.public_keys.replace_one (λ d. d.kid == key.kid) key)

  abbrev pub get_public_key : String → W → Result StoreError PublicKeyInfo
  get_public_key kid w = or_missing (db.public_keys.find_one (λ d. d.kid == kid) w)

  abbrev pub list_public_keys : String → W → Result StoreError (List PublicKeyInfo)
  list_public_keys client_id w =
      or_unavailable (db.public_keys.find_all (λ d. client_id == "" || d.client_id == client_id) w)

  abbrev pub put_record : String → String → Bytes → Exec W StoreError (Unit {0})
  put_record client_id context bytes = lifted or_unavailable (
      db.records.replace_one (of_record client_id context)
        (record { client_id = client_id; context = context; stored = bytes }))

  abbrev pub get_record : String → String → W → Result StoreError Bytes
  get_record client_id context w =
      mapped (λ d. d.stored) (or_missing (db.records.find_one (of_record client_id context) w))

  abbrev pub put_web_authn_credential :
      String → String → WebAuthnCredential → Exec W StoreError (Unit {0})
  put_web_authn_credential client_id context cred = lifted or_unavailable (
      db.webauthn_creds.insert_one
        (record { client_id = client_id; context = context; cred = cred }))

  abbrev pub get_web_authn_credential :
      String → String → W → Result StoreError (List WebAuthnCredential)
  get_web_authn_credential client_id context w =
      some_docs (db.webauthn_creds.find_all (of_client client_id context) w)

  abbrev pub update_web_authn_sign_count :
      String → String → Bytes → ℕ → Exec W StoreError (Unit {0})
  update_web_authn_sign_count client_id context id count = lifted some_matched (
      db.webauthn_creds.update_one
        (λ d. of_client client_id context d && d.cred.credential_id == id)
        (λ d. record d { cred = record d.cred { sign_count = count } }))

  -- The store as one of the interface; `now` is the clock that a record of use takes.
  abbrev pub mongo_store : ℤ → Store W
  mongo_store now = record {
    allocate_index = allocate_index;
    get_status = get_status;
    set_status = set_status;
    get_all_statuses = get_all_statuses;
    record_wua = record_wua;
    get_client_indices = get_client_indices;
    record_usage = record_usage now;
    is_used = is_used;
    put_public_key = put_public_key;
    get_public_key = get_public_key;
    list_public_keys = list_public_keys;
    put_record = put_record;
    get_record = get_record;
    put_web_authn_credential = put_web_authn_credential;
    get_web_authn_credential = get_web_authn_credential;
    update_web_authn_sign_count = update_web_authn_sign_count;
  }
