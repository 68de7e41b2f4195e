-- ===== src/Store/Memory.antt =====
-- internal/store/memory.go: the in-memory store. Each method holds the lock from its start to its
-- end, so it is one step. What a slice that is copied out shares with the store cannot be seen.
pub mod Status
pub mod Sound
use Prim.Native.String.{◌++◌ as text_append}
use go_r2ps_service.Base.{
  ℕ, suc, String, Bool, true, false, ◌||◌, Option, none, some, List, [], ◌∷◌, ◌++◌, map, keep, ◌==◌,
  string_eq, nat_eq, bytes_eq, if◌then◌else◌,
}
use go_r2ps_service.Base.Assoc.{Assoc, lookup, insert}
use go_r2ps_service.Base.Exec.{Result, ok, err, Exec}
use go_r2ps_service.Base.Text.Decimal.{decimal}
use go_r2ps_service.Protocol.{Bytes}
use go_r2ps_service.Store.{
  PublicKeyInfo, WebAuthnCredential, StoreError, not_found, Store, status_valid,
}

pub record MemoryStore : Type 0 where
  pub counters : Assoc String ℕ
  pub statuses : Assoc String (Assoc ℕ ℕ)
  pub client_indices : Assoc String (List ℕ)
  pub usage : Assoc String Bool
  pub public_keys : Assoc String PublicKeyInfo
  pub records : Assoc String Bytes
  pub webauthn : Assoc String (List WebAuthnCredential)

unfoldable pub new_memory_store : MemoryStore
new_memory_store = record {
  counters = [];
  statuses = [];
  client_indices = [];
  usage = [];
  public_keys = [];
  records = [];
  webauthn = [];
}

-- clientID + "|" + context.
abbrev pub joined : String → String → String
joined a b = text_append a (text_append "|" b)

-- A map read where a missing key gives the zero value.
abbrev pub or_zero {ℓ} : {A : Type ℓ} → A → Option A → A
or_zero z none = z
or_zero z (some a) = a

abbrev pub or_not_found {ℓ} : {A : Type ℓ} → Option A → Result StoreError A
or_not_found none = err not_found
or_not_found (some a) = ok a

abbrev pub next_index : String → MemoryStore → ℕ
next_index category m = or_zero 0 (lookup category m.counters)

-- A category that is not there has the nil map, which reads as the empty one.
abbrev pub category_statuses : String → MemoryStore → Assoc ℕ ℕ
category_statuses category m = or_zero [] (lookup category m.statuses)

unfoldable pub allocate_index : String → Exec MemoryStore StoreError ℕ
allocate_index category m =
    let idx = next_index category m in
    (
      ok idx,
      record m {
        counters = insert category (suc idx) m.counters;
        statuses =
            insert category (insert idx status_valid (category_statuses category m)) m.statuses;
      },
    )

unfoldable pub get_status : String → ℕ → MemoryStore → Result StoreError ℕ
get_status category idx m = or_not_found (lookup idx (category_statuses category m))

abbrev pub overwrite :
    String → ℕ → ℕ → MemoryStore → Option ℕ → Result StoreError (Unit {0}) × MemoryStore
overwrite category idx status m none = (err not_found, m)
overwrite category idx status m (some old) = (
  ok tt,
  record m {
    statuses = insert category (insert idx status (category_statuses category m)) m.statuses;
  },
)

unfoldable pub set_status : String → ℕ → ℕ → Exec MemoryStore StoreError (Unit {0})
set_status category idx status m =
    overwrite category idx status m (lookup idx (category_statuses category m))

unfoldable pub get_all_statuses : String → MemoryStore → Result StoreError (List (ℕ × ℕ))
get_all_statuses category m = ok (category_statuses category m)

unfoldable pub record_wua : String → String → ℕ → Exec MemoryStore StoreError (Unit {0})
record_wua client_id category idx m =
    let key = joined client_id category in
    (
      ok tt,
      record m {
        client_indices =
            insert key (or_zero [] (lookup key m.client_indices) ++ idx ∷ []) m.client_indices;
      },
    )

unfoldable pub get_client_indices : String → String → MemoryStore → Result StoreError (List ℕ)
get_client_indices client_id category m =
    ok (or_zero [] (lookup (joined client_id category) m.client_indices))

unfoldable pub record_usage : String → ℕ → Exec MemoryStore StoreError (Unit {0})
record_usage category idx m =
    (ok tt, record m { usage = insert (joined category (decimal idx)) true m.usage })

unfoldable pub is_used : String → ℕ → MemoryStore → Result StoreError Bool
is_used category idx m = ok (or_zero false (lookup (joined category (decimal idx)) m.usage))

unfoldable pub put_public_key : PublicKeyInfo → Exec MemoryStore StoreError (Unit {0})
put_public_key key m = (ok tt, record m { public_keys = insert key.kid key m.public_keys })

unfoldable pub get_public_key : String → MemoryStore → Result StoreError PublicKeyInfo
get_public_key kid m = or_not_found (lookup kid m.public_keys)

-- The source lists them in the order of a Go map, which is any order.
unfoldable pub list_public_keys : String → MemoryStore → Result StoreError (List PublicKeyInfo)
list_public_keys client_id m =
    ok (keep (λ k. client_id == "" || k.client_id == client_id) (map (λ e. e.1) m.public_keys))

unfoldable pub put_record : String → String → Bytes → Exec MemoryStore StoreError (Unit {0})
put_record client_id context value m =
    (ok tt, record m { records = insert (joined client_id context) value m.records })

unfoldable pub get_record : String → String → MemoryStore → Result StoreError Bytes
get_record client_id context m = or_not_found (lookup (joined client_id context) m.records)

abbrev pub credentials_of : String → String → MemoryStore → List WebAuthnCredential
credentials_of client_id context m = or_zero [] (lookup (joined client_id context) m.webauthn)

unfoldable pub put_web_authn_credential :
    String → String → WebAuthnCredential → Exec MemoryStore StoreError (Unit {0})
put_web_authn_credential client_id context cred m = (
  ok tt,
  record m {
    webauthn =
        insert (joined client_id context) (credentials_of client_id context m ++ cred ∷ [])
          m.webauthn;
  },
)

abbrev pub some_credentials : List WebAuthnCredential → Result StoreError (List WebAuthnCredential)
some_credentials [] = err not_found
some_credentials (c ∷ cs) = ok (c ∷ cs)

unfoldable pub get_web_authn_credential :
    String → String → MemoryStore → Result StoreError (List WebAuthnCredential)
get_web_authn_credential client_id context m = some_credentials (credentials_of client_id context m)

-- The loop over the credentials: the first with the identifier gets the count.
pub with_sign_count : Bytes → ℕ → List WebAuthnCredential → Option (List WebAuthnCredential)
with_sign_count id n [] = none
with_sign_count id n (c ∷ cs) =
    let rest = with_sign_count id n cs in
    if c.credential_id == id
    then some (record c { sign_count = n } ∷ cs)
    else elim rest [ none ↦ none | some ds ↦ some (c ∷ ds) ]

abbrev pub store_counted :
    String
    → MemoryStore
    → Option (List WebAuthnCredential)
    → Result StoreError (Unit {0}) × MemoryStore
store_counted key m none = (err not_found, m)
store_counted key m (some cs) = (ok tt, record m { webauthn = insert key cs m.webauthn })

unfoldable pub update_web_authn_sign_count :
    String → String → Bytes → ℕ → Exec MemoryStore StoreError (Unit {0})
unfolding with_sign_count
update_web_authn_sign_count client_id context credential_id sign_count m =
    store_counted (joined client_id context) m
      (with_sign_count credential_id sign_count (credentials_of client_id context m))

abbrev pub memory_store : Store MemoryStore
memory_store = record {
  allocate_index = allocate_index;
  get_status = get_status;
  set_status = set_status;
  get_all_statuses = get_all_statuses;
  record_wua = record_wua;
  get_client_indices = get_client_indices;
  record_usage = record_usage;
  is_used = is_used;
  put_public_key = put_public_key;
  get_public_key = get_public_key;
  list_public_keys = list_public_keys;
  put_record = put_record;
  get_record = get_record;
  put_web_authn_credential = put_web_authn_credential;
  get_web_authn_credential = get_web_authn_credential;
  update_web_authn_sign_count = update_web_authn_sign_count;
}
