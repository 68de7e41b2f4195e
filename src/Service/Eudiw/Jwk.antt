-- ===== src/Service/Eudiw/Jwk.antt =====
-- `pubKeyToJWK`: an EC point as the JSON text of a JWK. The decompression of crypto/elliptic is a
-- parameter.
use Prim.Native.String.{◌++◌ as text_append}
use go_r2ps_service.Base.{
  ℕ, zero, suc, ◌+◌, ◌*◌, String, Option, none, some, [], ◌∷◌, nat_beq, ltb, ◌||◌, length, take,
  drop, if◌then◌else◌, ◌==◌, string_eq,
}
use go_r2ps_service.Base.Big.{big_bytes}
use go_r2ps_service.Base.Exec.{Result, ok, err}
use go_r2ps_service.Base.Text.Base64.{raw_encode}
use go_r2ps_service.Protocol.{Bytes}
use go_r2ps_service.Crypto.Jwt.{Curve, p256, p384, p521}
use go_r2ps_service.Service.Eudiw.{Failure, refused, crashed}

-- `elliptic.UnmarshalCompressed`.
abbrev pub Decompress : Type 0
Decompress = Curve → Bytes → Option (ℕ × ℕ)

-- The loop that puts zeros in front; one round adds a byte, so `byte_len` rounds are enough.
pad_rounds : ℕ → ℕ → Bytes → Bytes
pad_rounds zero byte_len bs = bs
pad_rounds (suc fuel) byte_len bs =
    let rest = pad_rounds fuel byte_len (0 ∷ bs) in if ltb (length bs) byte_len then rest else bs

unfoldable pub padded : ℕ → Bytes → Bytes
unfolding pad_rounds
padded byte_len bs = pad_rounds byte_len byte_len bs

abbrev pub curve_named : String → Option (Curve × ℕ)
curve_named curve =
    if curve == "P-256"
    then some (p256, 32)
    else if curve == "P-384"
    then some (p384, 48)
    else if curve == "P-521"
    then some (p521, 66)
    else none

abbrev pub jwk_text : String → Bytes → Bytes → String
jwk_text crv x y = text_append "{\"kty\":\"EC\",\"crv\":\"" (
    text_append crv (
      text_append "\",\"x\":\"" (
        text_append (raw_encode x) (text_append "\",\"y\":\"" (text_append (raw_encode y) "\"}")))))

abbrev pub padded_text : String → ℕ → Option (ℕ × ℕ) → Result Failure String
padded_text crv byte_len none = err (refused "invalid compressed EC point")
padded_text crv byte_len (some (x, y)) =
    ok (jwk_text crv (padded byte_len (big_bytes x)) (padded byte_len (big_bytes y)))

module _ (unmarshal_compressed : Decompress) where
  -- The error of the last case names the first byte, which an empty point does not have.
  abbrev pub point_text : String → Curve → ℕ → Bytes → Result Failure String
  point_text crv curve byte_len [] = err crashed
  point_text crv curve byte_len (form ∷ rest) =
      if nat_beq form 0x04
      then (if nat_beq (suc (length rest)) (1 + 2 * byte_len)
          then ok (jwk_text crv (take byte_len rest) (drop byte_len rest))
          else err (refused "invalid uncompressed EC point"))
      else if nat_beq form 0x02 || nat_beq form 0x03
      then padded_text crv byte_len (unmarshal_compressed curve (form ∷ rest))
      else err (refused "invalid EC point prefix")

  abbrev pub point_on : Bytes → String → Option (Curve × ℕ) → Result Failure String
  point_on ec_point name none = err (refused "unsupported curve")
  point_on ec_point name (some (curve, byte_len)) = point_text name curve byte_len ec_point

  unfoldable pub pub_key_to_jwk : Bytes → String → Result Failure String
  pub_key_to_jwk ec_point curve = point_on ec_point curve (curve_named curve)
