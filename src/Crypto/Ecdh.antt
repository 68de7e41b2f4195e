-- ===== src/Crypto/Ecdh.antt =====
-- internal/crypto/ecdh.go: shared secrets and compressed points on one curve. What it calls of
-- crypto/elliptic and math/big is a parameter.
pub mod RoundTrip
pub mod Secret
use go_r2ps_service.Base.{
  ℕ, zero, suc, ◌+◌, ◌-◌, ◌*◌, ◌/◌, ◌%◌, Bool, true, false, Option, none, some, List, [], ◌∷◌, ◌++◌,
  nat_beq, ltb, ◌||◌, length, take, replicate, if◌then◌else◌,
}
use go_r2ps_service.Base.Big.{big_int, big_bytes}
use go_r2ps_service.Protocol.{Bytes}

-- `elliptic.CurveParams` with the curve's methods; `none` stands for a nil number. `mod_sqrt a` is
-- `ModSqrt(a, p)`.
pub record CurveMethods : Type 0 where
  pub p : ℕ
  pub b : ℕ
  pub bit_size : ℕ
  pub scalar_mult : ℕ × ℕ → Bytes → Option ℕ
  pub unmarshal : Bytes → Option (ℕ × ℕ)
  pub mod_sqrt : ℕ → Option ℕ

module _ (c : CurveMethods) where
  abbrev pub byte_len : ℕ
  byte_len = (c.bit_size + 7) / 8

  -- A `copy` of `bs` to the end of a slice; `none` is a panic of the bounds check.
  abbrev pub copied_to_end : Bytes → Bytes → Option Bytes
  copied_to_end bytes bs =
      if ltb (length bytes) (length bs)
      then none
      else some (take (length bytes - length bs) bytes ++ bs)

  abbrev pub padded_secret : Option ℕ → Option Bytes
  padded_secret none = none
  padded_secret (some x) =
      if ltb (length (big_bytes x)) byte_len
      then copied_to_end (replicate byte_len 0) (big_bytes x)
      else some (big_bytes x)

  -- `ECDHSharedSecret` for two keys of this curve; `none` is an error.
  unfoldable pub ecdh_shared_secret : ℕ → ℕ × ℕ → Option Bytes
  ecdh_shared_secret d point = padded_secret (c.scalar_mult point (big_bytes d))

  -- The first byte of a compressed point.
  abbrev pub form_of : ℕ → ℕ
  form_of y = if nat_beq (y % 2) 0 then 0x02 else 0x03

  -- `MarshalCompressedPublicKey`; `none` is a panic.
  unfoldable pub marshal_compressed_public_key : ℕ × ℕ → Option Bytes
  marshal_compressed_public_key key =
      copied_to_end (form_of key.1 ∷ replicate byte_len 0) (big_bytes key.0)

  -- `boolToBit`.
  abbrev pub bool_to_bit : Bool → ℕ
  bool_to_bit true = 1
  bool_to_bit false = 0

  -- x³ - 3x + b modulo p. `Mod` is not negative, so p goes in front of the subtraction.
  abbrev pub y_squared : ℕ → ℕ
  y_squared x = (x * x * x % c.p + c.p - 3 * x % c.p + c.b) % c.p

  abbrev pub with_parity : Bool → Option ℕ → Option ℕ
  with_parity odd none = none
  with_parity odd (some y) = some (if nat_beq (y % 2) (bool_to_bit odd) then y else c.p - y)

  -- `decompressY`.
  unfoldable pub decompress_y : ℕ → Bool → Option ℕ
  decompress_y x odd = with_parity odd (c.mod_sqrt (y_squared x))

  abbrev pub with_x : ℕ → Option ℕ → Option (ℕ × ℕ)
  with_x x none = none
  with_x x (some y) = some (x, y)

  -- `DecompressPublicKey`; `none` is an error.
  unfoldable pub decompress_public_key : Bytes → Option (ℕ × ℕ)
  decompress_public_key [] = none
  decompress_public_key (form ∷ rest) =
      if nat_beq form 0x04
      then c.unmarshal (form ∷ rest)
      else if nat_beq form 0x02 || nat_beq form 0x03
      then (if nat_beq (suc (length rest)) (1 + byte_len)
          then with_x (big_int 0 rest) (decompress_y (big_int 0 rest) (nat_beq form 0x03))
          else none)
      else none
