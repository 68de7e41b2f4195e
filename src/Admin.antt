-- ===== src/Admin.antt =====
-- internal/admin/admin.go: the admin API over the store. A request stands here as net/http hands it
-- to a handler: by its route and the values of the route's path. Encoding of replies and logging are
-- left out.
pub mod Auth
pub mod Access
pub mod Sound
use go_r2ps_service.Base.{
  ℕ, String, Bool, true, false, Option, none, some, List, [], ◌∷◌, ◌++◌, map, ltb, length, nat_beq,
  ◌==◌, string_eq, if◌then◌else◌,
}
use go_r2ps_service.Base.Exec.{Result, ok, err}
use go_r2ps_service.Base.Int.{ℤ, pos, negsuc}
use go_r2ps_service.Protocol.{Bytes}
use go_r2ps_service.Store.{
  PublicKeyInfo, StoreError, not_found, unavailable, Store, status_valid, status_invalid,
  status_suspended,
}
use go_r2ps_service.Admin.Auth.{
  HttpRequest, HttpHandler, Middleware, TokenLibrary, token_auth, dev_token_auth, require_tac,
  chain,
}

-- The routes, with their path values; `client_id` of the key list is the query parameter.
pub data Route : Type 0 where
  list_statuses : (category : String) → Route
  get_status : (category idx : String) → Route
  set_status : (category idx : String) → (body : Bytes) → Route
  get_client_indices : (client_id category : String) → Route
  get_usage : (category idx : String) → Route
  allocate_index : (category : String) → Route
  list_keys : (client_id : String) → Route
  get_key : (kid : String) → Route

pub record Entry : Type 0 where
  pub idx : ℕ
  pub status : ℕ
  pub label : String

-- A JSON answer, with the code 200 or, for an allocation, 201.
pub data Reply : Type 0 where
  admin_error : ℕ → Reply
  statuses : String → ℕ → List Entry → Reply
  status : String → ℤ → Entry → Bool → Reply
  updated : String → ℤ → Entry → Reply
  client_indices : String → String → List Entry → Reply
  usage : String → ℤ → Bool → Reply
  allocated : String → ℕ → Reply
  keys : ℕ → List PublicKeyInfo → Reply
  key : PublicKeyInfo → Reply

-- strconv.Atoi, and the decoding of {"status": n} from at most 256 bytes.
pub record AdminLibrary : Type 0 where
  pub atoi : String → Option ℤ
  pub parse_status : Bytes → Option ℕ

-- `statusLabel`.
abbrev pub status_label : ℕ → String
status_label s =
    if nat_beq s status_valid
    then "valid"
    else if nat_beq s status_invalid
    then "revoked"
    else if nat_beq s status_suspended
    then "suspended"
    else "unknown"

abbrev pub entry_of : ℕ × ℕ → Entry
entry_of (idx, s) = record { idx = idx; status = s; label = status_label s }

abbrev pub error_code : StoreError → ℕ
error_code not_found = 404
error_code unavailable = 500

module _ {S : Type 0} (lib : AdminLibrary) (store : Store S) where
  -- `handleListStatuses`.
  abbrev pub statuses_reply : String → Result StoreError (List (ℕ × ℕ)) → Reply
  statuses_reply category (err e) = admin_error 500
  statuses_reply category (ok entries) = statuses category (length entries) (map entry_of entries)

  -- A read whose error is dropped gives the zero value.
  abbrev pub or_zero_value : {A : Type 0} → A → Result StoreError A → A
  or_zero_value z (ok a) = a
  or_zero_value z (err e) = z

  abbrev pub found_reply : String → ℕ → S → Result StoreError ℕ → Reply
  found_reply category idx s (err e) = admin_error (error_code e)
  found_reply category idx s (ok n) =
      status category (pos idx) (entry_of (idx, n))
        (or_zero_value false (store.is_used category idx s))

  -- `handleGetStatus`. A store has no entry below index 0.
  abbrev pub status_reply : String → Option ℤ → S → Reply
  status_reply category none s = admin_error 400
  status_reply category (some (negsuc n)) s = admin_error 404
  status_reply category (some (pos idx)) s =
      found_reply category idx s (store.get_status category idx s)

  abbrev pub updated_reply : String → ℕ → ℕ → Result StoreError (Unit {0}) × S → Reply × S
  updated_reply category idx n (ok _, s) = (updated category (pos idx) (entry_of (idx, n)), s)
  updated_reply category idx n (err e, s) = (admin_error (error_code e), s)

  abbrev pub update_at : String → ℤ → ℕ → S → Reply × S
  update_at category (negsuc m) n s = (admin_error 404, s)
  update_at category (pos idx) n s =
      updated_reply category idx n (store.set_status category idx n s)

  abbrev pub update_parsed : String → ℤ → Option ℕ → S → Reply × S
  update_parsed category idx none s = (admin_error 400, s)
  update_parsed category idx (some n) s =
      if ltb status_suspended n then (admin_error 400, s) else update_at category idx n s

  -- `handleSetStatus`.
  abbrev pub update_reply : String → Option ℤ → Bytes → S → Reply × S
  update_reply category none body s = (admin_error 400, s)
  update_reply category (some idx) body s = update_parsed category idx (lib.parse_status body) s

  -- `handleGetClientIndices`: an index whose status cannot be read is shown as valid.
  abbrev pub indices_reply : String → String → S → Result StoreError (List ℕ) → Reply
  indices_reply client_id category s (err e) = admin_error 500
  indices_reply client_id category s (ok indices) =
      client_indices client_id category
        (map (λ idx. entry_of (idx, or_zero_value 0 (store.get_status category idx s))) indices)

  abbrev pub used_reply : String → ℤ → Result StoreError Bool → Reply
  used_reply category idx (err e) = admin_error 500
  used_reply category idx (ok used) = usage category idx used

  -- `handleGetUsage`.
  abbrev pub usage_reply : String → Option ℤ → S → Reply
  usage_reply category none s = admin_error 400
  usage_reply category (some (negsuc n)) s = usage category (negsuc n) false
  usage_reply category (some (pos idx)) s =
      used_reply category (pos idx) (store.is_used category idx s)

  -- `handleAllocateIndex`.
  abbrev pub allocated_reply : String → Result StoreError ℕ × S → Reply × S
  allocated_reply category (ok idx, s) = (allocated category idx, s)
  allocated_reply category (err e, s) = (admin_error 500, s)

  -- `handleListKeys`.
  abbrev pub keys_reply : Result StoreError (List PublicKeyInfo) → Reply
  keys_reply (err e) = admin_error 500
  keys_reply (ok ks) = keys (length ks) ks

  -- `handleGetKey`.
  abbrev pub key_reply : Result StoreError PublicKeyInfo → Reply
  key_reply (err e) = admin_error (error_code e)
  key_reply (ok k) = key k

  -- The handler of a route.
  unfoldable pub handle : Route → S → Reply × S
  handle (list_statuses category) s =
      (statuses_reply category (store.get_all_statuses category s), s)
  handle (get_status category idx) s = (status_reply category (lib.atoi idx) s, s)
  handle (set_status category idx body) s = update_reply category (lib.atoi idx) body s
  handle (get_client_indices client_id category) s =
      (indices_reply client_id category s (store.get_client_indices client_id category s), s)
  handle (get_usage category idx) s = (usage_reply category (lib.atoi idx) s, s)
  handle (allocate_index category) s = allocated_reply category (store.allocate_index category s)
  handle (list_keys client_id) s = (keys_reply (store.list_public_keys client_id s), s)
  handle (get_key kid) s = (key_reply (store.get_public_key kid s), s)

-- `New`: the permission that each route needs.
abbrev pub required : Route → String
required (list_statuses _) = "l"
required (get_status _ _) = "r"
required (set_status _ _ _) = "w"
required (get_client_indices _ _) = "l"
required (get_usage _ _) = "r"
required (allocate_index _) = "i"
required (list_keys _) = "l"
required (get_key _) = "r"

-- `options`: whether a validator is set, and the development token.
pub record Options : Type 0 where
  pub validator : Bool
  pub dev_token : String

module _ {S : Type 0} (lib : AdminLibrary) (tokens : TokenLibrary) (store : Store S) where
  abbrev pub auth_of : Options → Option (Middleware S Reply)
  auth_of o =
      if o.validator
      then some (token_auth admin_error tokens)
      else if o.dev_token == ""
      then none
      else some (dev_token_auth admin_error o.dev_token)

  abbrev pub guarded : Option (Middleware S Reply) → Route → HttpHandler S Reply
  guarded none route r s = handle lib store route s
  guarded (some auth) route r s =
      chain (auth ∷ require_tac admin_error tokens (required route) ∷ [])
        (λ r s. handle lib store route s) r s

  -- `New` and `ServeHTTP`.
  unfoldable pub serve : Options → Route → HttpHandler S Reply
  serve o route = guarded (auth_of o) route
