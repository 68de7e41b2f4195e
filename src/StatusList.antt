-- ===== src/StatusList.antt =====
-- internal/statuslist/statuslist.go: the handler that publishes the statuses of a category, two bits
-- each. DEFLATE and encoding/json are parameters; the Cache-Control header is left out.
pub mod Published
use Prim.Native.Char.{code}
use Prim.Native.Nat.{bit_or}
use Prim.Native.String.{◌++◌ as text_append}
use go_r2ps_service.Base.{
  ℕ, zero, suc, ◌+◌, ◌*◌, ◌/◌, ◌%◌, ◌^◌, String, Option, none, some, List, [], ◌∷◌, ltb, nat_beq,
  length, get_elem?, set, replicate, if◌then◌else◌,
}
use go_r2ps_service.Base.Exec.{Result, ok, err}
use go_r2ps_service.Base.Int.{ℤ, pos, ◌+ℤ◌, unix}
use go_r2ps_service.Base.Text.Base64.{raw_encode}
use go_r2ps_service.Protocol.{Bytes}
use go_r2ps_service.Crypto.Jwt.{JoseSigner, sign_jwt}
use go_r2ps_service.Store.{StoreError, Store}
use go_r2ps_service.Service.Eudiw.Issue.{hour, or_default}

pub record Config (K : Type 0) : Type 0 where
  pub signing_key : K
  pub x5c_chain : List Bytes
  pub base_uri : String
  pub ttl : ℤ

-- `statusListPayload` with its `statusData`.
pub record StatusListPayload : Type 0 where
  pub sub : String
  pub iat : ℤ
  pub exp : ℤ
  pub bits : ℕ
  pub lst : String

pub record Library : Type 0 where
  pub deflate : Bytes → Option Bytes
  pub marshal : StatusListPayload → Option Bytes

-- What is written to the client; `crashed` is a panic of the Go runtime.
pub data Reply : Type 0 where
  http_error : ℕ → String → Reply
  status_list : String → Reply
  crashed : Reply

-- `strings.TrimPrefix`.
unfoldable pub after_prefix : String → String → Option String
after_prefix String.[] s = some s
after_prefix (String.◌∷◌ p ps) String.[] = none
after_prefix (String.◌∷◌ p ps) (String.◌∷◌ c cs) =
    if nat_beq (code p) (code c) then after_prefix ps cs else none

abbrev or_same : String → Option String → String
or_same s none = s
or_same s (some rest) = rest

unfoldable pub trim_prefix : String → String → String
unfolding after_prefix
trim_prefix prefix s = or_same s (after_prefix prefix s)

-- `strings.SplitN(s, "/", 2)`, where it gives two parts.
unfoldable pub split_path : String → Option (String × String)
split_path String.[] = none
split_path (String.◌∷◌ c cs) =
    let rest = split_path cs in
    if nat_beq (code c) b'/'
    then some ("", cs)
    else elim rest [ none ↦ none | some (first, second) ↦ some (String.◌∷◌ c first, second) ]

-- The loop over the entries, from `m` on.
abbrev pub max_index_from : ℕ → List (ℕ × ℕ) → ℕ
max_index_from m [] = m
max_index_from m ((idx, status) ∷ rest) = max_index_from (if ltb m idx then idx else m) rest

abbrev pub at_least_one : ℕ → ℕ
at_least_one n = if nat_beq n 0 then 1 else n

abbrev pub byte_len : List (ℕ × ℕ) → ℕ
byte_len entries = (at_least_one (max_index_from 0 entries + 1) * 2 + 7) / 8

-- `bitstring[byteIdx] |= (status & 0x03) << bitOffset` on bytes; `none` is an index out of range.
abbrev pub or_byte : Bytes → ℕ → ℕ → Option ℕ → Option Bytes
or_byte bitstring byte_idx v none = none
or_byte bitstring byte_idx v (some old) = some (set bitstring byte_idx (bit_or old v))

unfoldable pub put_status : ℕ → ℕ → Bytes → Option Bytes
put_status idx status bitstring =
    or_byte bitstring (idx * 2 / 8) (status % 4 * 2 ^ (idx * 2 % 8) % 256)
      (get_elem? bitstring (idx * 2 / 8))

-- The loop over the map; a Go map is walked in any order.
unfoldable pub put_statuses : List (ℕ × ℕ) → Option Bytes → Option Bytes
put_statuses entries none = none
put_statuses [] (some bitstring) = some bitstring
put_statuses ((idx, status) ∷ rest) (some bitstring) =
    put_statuses rest (put_status idx status bitstring)

unfoldable pub bitstring_of : List (ℕ × ℕ) → Option Bytes
bitstring_of entries = put_statuses entries (some (replicate (byte_len entries) 0))

module _ {S K : Type 0} (lib : Library) (signer : JoseSigner K) (store : Store S)
    (cfg : Config K) where
  abbrev pub subject : String → String → String
  subject category list_id =
      text_append cfg.base_uri (text_append "/" (text_append category (text_append "/" list_id)))

  abbrev pub payload_of : ℤ → String → Bytes → StatusListPayload
  payload_of now sub compressed = record {
    sub = sub;
    iat = unix now;
    exp = unix (now +ℤ or_default (pos hour) cfg.ttl);
    bits = 2;
    lst = raw_encode compressed;
  }

  abbrev pub signed_reply : Option Bytes → Reply
  signed_reply none = http_error 500 "marshal error"
  signed_reply (some payload) =
      elim (sign_jwt signer payload cfg.signing_key "statuslist+jwt" cfg.x5c_chain) [
        | none ↦ http_error 500 "sign error"
        | some jwt ↦ status_list jwt
      ]

  abbrev pub compressed_reply : ℤ → String → Option Bytes → Reply
  compressed_reply now sub none = http_error 500 "compression error"
  compressed_reply now sub (some compressed) =
      signed_reply (lib.marshal (payload_of now sub compressed))

  abbrev pub bitstring_reply : ℤ → String → Option Bytes → Reply
  bitstring_reply now sub none = crashed
  bitstring_reply now sub (some bitstring) = compressed_reply now sub (lib.deflate bitstring)

  abbrev pub entries_reply : ℤ → String → Result StoreError (List (ℕ × ℕ)) → Reply
  entries_reply now sub (err e) = http_error 500 "internal error"
  entries_reply now sub (ok entries) = bitstring_reply now sub (bitstring_of entries)

  abbrev pub path_reply : ℤ → Option (String × String) → S → Reply
  path_reply now none s = http_error 400 "invalid path"
  path_reply now (some (category, list_id)) s =
      entries_reply now (subject category list_id) (store.get_all_statuses category s)

  -- `ServeHTTP`, which changes nothing.
  unfoldable pub serve : ℤ → String → S → Reply
  serve now path s = path_reply now (split_path (trim_prefix "/statuslists/" path)) s
