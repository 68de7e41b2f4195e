-- ===== src/WebAuthn/Cbor.antt =====
-- The CBOR readers of internal/webauthn: `decodeCBORInt` and `decodeCBORMap` of types.go,
-- `skipCBORValue` and `extractAuthDataFromAttestation` of verify.go. A position is an index into
-- the whole input, as in the source.
pub mod Depth
use go_r2ps_service.Base.{
  ℕ, zero, suc, ◌+◌, ◌*◌, ◌/◌, ◌%◌, [], leb, ltb, nat_beq, length, drop, ◌==◌, bytes_eq,
  if◌then◌else◌,
}
use go_r2ps_service.Base.Assoc.{Assoc, insert}
use go_r2ps_service.Base.Exec.{ok, err}
use go_r2ps_service.Base.Int.{ℤ, pos, negsuc, int_eq}
use go_r2ps_service.Base.Text.{codes}
use go_r2ps_service.Protocol.{Bytes}
use go_r2ps_service.WebAuthn.Outcome.{
  Outcome, rejected, exhausted, ◌>>=◌, ◌>>◌, ensure, byte_at, slice, big_endian,
}

-- The two parts of an initial byte.
abbrev pub major : ℕ → ℕ
major b = b / 32

abbrev pub additional : ℕ → ℕ
additional b = b % 32

abbrev pub signed : ℕ → ℕ → ℤ
signed m v = if nat_beq m 1 then negsuc v else pos v

-- `decodeCBORInt`: the value and the number of bytes that it takes.
unfoldable pub decode_cbor_int : Bytes → Outcome (ℤ × ℕ)
decode_cbor_int bytes = do
  ensure (ltb 0 (length bytes))
  b ← byte_at bytes 0
  let m = major b
  let a = additional b
  if ltb a 24
      then ok (signed m a, 1)
      else if nat_beq a 24
      then (do ensure (leb 2 (length bytes)); v ← byte_at bytes 1; ok (signed m v, 2))
      else if nat_beq a 25
      then (do
        ensure (leb 3 (length bytes))
        v ← slice bytes 1 2
        ok (signed m (big_endian 0 v), 3))
      else err rejected

-- The length of a byte string, and where its first byte stands.
pub string_length : Bytes → ℕ → ℕ → Outcome (ℕ × ℕ)
string_length bytes a at =
    if nat_beq a 24
    then (do ensure (ltb at (length bytes)); n ← byte_at bytes at; ok (n, at + 1))
    else if nat_beq a 25
    then (do
      ensure (ltb (at + 1) (length bytes))
      v ← slice bytes at 2
      ok (big_endian 0 v, at + 2))
    else ok (a, at)

abbrev pub skipped_int : ℕ → ℕ → ℕ
skipped_int a at = if nat_beq a 24 then at + 1 else if nat_beq a 25 then at + 2 else at

-- Where the loop over the pairs goes on, or the map that is returned at once.
pub data Progress : Type 0 where
  done : Assoc ℤ Bytes → Progress
  more : ℕ → Assoc ℤ Bytes → Progress

-- The value of one pair.
pub read_value : Bytes → ℤ → ℕ → Assoc ℤ Bytes → Outcome Progress
unfolding string_length
read_value bytes key at found = do
  ensure (ltb at (length bytes))
  b ← byte_at bytes at
  if nat_beq (major b) 2
      then (do
        (n, start) ← string_length bytes (additional b) (at + 1)
        ensure (leb (start + n) (length bytes))
        value ← slice bytes start n
        ok (more (start + n) (insert key value found)))
      else if leb (major b) 1
      then ok (more (skipped_int (additional b) (at + 1)) found)
      else ok (done found)

-- The loop over the pairs: at most `pairs` more, and none past the end of the input.
pub read_pairs : Bytes → ℕ → ℕ → Assoc ℤ Bytes → Outcome (Assoc ℤ Bytes)
unfolding decode_cbor_int read_value
read_pairs bytes zero at found = ok found
read_pairs bytes (suc pairs) at found =
    if ltb at (length bytes)
    then (do
      (key, n) ← decode_cbor_int (drop at bytes)
      step ← read_value bytes key (at + n) found
      elim step [ done m ↦ ok m | more at' m ↦ read_pairs bytes pairs at' m ])
    else ok found

-- The number of pairs that a map's header announces, and where the first one stands.
pub map_header : Bytes → Outcome (ℕ × ℕ)
map_header bytes = do
  b ← byte_at bytes 0
  ensure (nat_beq (major b) 5)
  if nat_beq (additional b) 24
      then (do ensure (ltb 1 (length bytes)); n ← byte_at bytes 1; ok (n, 2))
      else ok (additional b, 1)

-- `decodeCBORMap`.
unfoldable pub decode_cbor_map : Bytes → Outcome (Assoc ℤ Bytes)
unfolding map_header read_pairs
decode_cbor_map bytes = do
  ensure (ltb 0 (length bytes))
  (pairs, at) ← map_header bytes
  read_pairs bytes pairs at []

-- The number in an item's header, which `skipCBORValue` reads with no test of the length, and the
-- position behind it.
pub header_length : Bytes → ℕ → ℕ → Outcome (ℕ × ℕ)
header_length bytes a at =
    if ltb a 24
    then ok (a, at)
    else if nat_beq a 24
    then (do n ← byte_at bytes at; ok (n, at + 1))
    else if nat_beq a 25
    then (do v ← slice bytes at 2; ok (big_endian 0 v, at + 2))
    else if nat_beq a 26
    then (do v ← slice bytes at 4; ok (big_endian 0 v, at + 4))
    else ok (0, at)

-- `for i := 0; i < n; i++ { pos = skip(data, pos) }`.
abbrev pub repeat : (ℕ → Outcome ℕ) → ℕ → ℕ → Outcome ℕ
repeat skip zero at = ok at
repeat skip (suc n) at = do at' ← skip at; repeat skip n at'

abbrev pub skip_body : (ℕ → Outcome ℕ) → ℕ → ℕ → ℕ → Outcome ℕ
skip_body skip m n at =
    if leb m 1
    then ok at
    else if leb m 3
    then ok (at + n)
    else if nat_beq m 4
    then repeat skip n at
    else if nat_beq m 5
    then repeat skip (2 * n) at
    else ok at

-- `skipCBORValue`, with a bound on the depth of nesting. A map's body makes two calls a round.
pub skip_value : ℕ → Bytes → ℕ → Outcome ℕ
unfolding header_length
skip_value zero bytes at = err exhausted
skip_value (suc depth) bytes at = if leb (length bytes) at then ok at else (do
  b ← byte_at bytes at
  (n, at') ← header_length bytes (additional b) (at + 1)
  skip_body (skip_value depth bytes) (major b) n at')

-- Every nested call starts further on, so a depth of one more than the input's length is enough.
unfoldable pub skip_cbor_value : Bytes → ℕ → Outcome ℕ
unfolding skip_value
skip_cbor_value bytes at = skip_value (suc (length bytes)) bytes at

pub auth_data_length : Bytes → ℕ → ℕ → Outcome (ℕ × ℕ)
unfolding header_length
auth_data_length bytes a at = if leb 27 a then ok (a, at) else header_length bytes a at

-- The byte string under the key "authData".
pub auth_data_value : Bytes → ℕ → Outcome Bytes
unfolding auth_data_length
auth_data_value bytes at = do
  b ← byte_at bytes at
  ensure (nat_beq (major b) 2)
  (n, start) ← auth_data_length bytes (additional b) (at + 1)
  ensure (leb (start + n) (length bytes))
  slice bytes start n

-- The length of a key: one byte at most.
pub key_length : Bytes → ℕ → ℕ → Outcome (ℕ × ℕ)
key_length bytes a at =
    if nat_beq a 24 then (do n ← byte_at bytes at; ok (n, at + 1)) else ok (a, at)

-- The loop over the pairs of an attestation object.
pub find_auth_data : Bytes → ℕ → ℕ → Outcome Bytes
unfolding skip_cbor_value auth_data_value key_length
find_auth_data bytes zero at = err rejected
find_auth_data bytes (suc pairs) at =
    if ltb at (length bytes)
    then (do
      b ← byte_at bytes at
      if nat_beq (major b) 3
          then (do
            (n, start) ← key_length bytes (additional b) (at + 1)
            ensure (leb (start + n) (length bytes))
            key ← slice bytes start n
            if key == codes "authData"
                then auth_data_value bytes (start + n)
                else (do at' ← skip_cbor_value bytes (start + n); find_auth_data bytes pairs at'))
          else (do
            behind_key ← skip_cbor_value bytes at
            at' ← skip_cbor_value bytes behind_key
            find_auth_data bytes pairs at'))
    else err rejected

-- `extractAuthDataFromAttestation`.
unfoldable pub extract_auth_data : Bytes → Outcome Bytes
unfolding find_auth_data
extract_auth_data bytes = do
  ensure (leb 3 (length bytes))
  b ← byte_at bytes 0
  ensure (nat_beq (major b) 5)
  if nat_beq (additional b) 24
      then (do n ← byte_at bytes 1; find_auth_data bytes n 2)
      else find_auth_data bytes (additional b) 1
