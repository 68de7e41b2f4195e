-- ===== src/Base/Text/Base64.antt =====
-- encoding/base64, `base64.URLEncoding`: the padded URL alphabet. Decoding skips line breaks and
-- does not look at the unused low bits of a last character.
pub mod RoundTrip
use Prim.Native.Char.{Char}
use go_r2ps_service.Base.{
  ℕ, zero, suc, ◌+◌, ◌-◌, ◌*◌, ◌/◌, ◌%◌, ◌≡◌, refl, Bool, true, false, ◌&&◌, ◌||◌, Option, none,
  some, List, [], ◌∷◌, leb, nat_beq, if◌then◌else◌, String, keep, not,
}
use go_r2ps_service.Base.Text.{codes}

sextet : ℕ → Option ℕ
sextet c =
    if leb b'A' c && leb c b'Z'
    then some (c - b'A')
    else if leb b'a' c && leb c b'z'
    then some (c - b'a' + 26)
    else if leb b'0' c && leb c b'9'
    then some (c - b'0' + 52)
    else if nat_beq c b'-'
    then some 62
    else if nat_beq c b'_'
    then some 63
    else none

abbrev pad : ℕ
pad = b'='

abbrev byte_0 : ℕ → ℕ → ℕ
byte_0 a b = a * 4 + b / 16

abbrev byte_1 : ℕ → ℕ → ℕ
byte_1 b c = b % 16 * 16 + c / 4

abbrev byte_2 : ℕ → ℕ → ℕ
byte_2 c d = c % 4 * 64 + d

quantum : Option ℕ → Option ℕ → Option ℕ → Option ℕ → Option (List ℕ) → Option (List ℕ)
quantum (some a) (some b) (some c) (some d) (some rest) =
    some (byte_0 a b ∷ (byte_1 b c ∷ (byte_2 c d ∷ rest)))
quantum _ _ _ _ _ = none

two_bytes : Option ℕ → Option ℕ → Option ℕ → Option (List ℕ)
two_bytes (some a) (some b) (some c) = some (byte_0 a b ∷ (byte_1 b c ∷ []))
two_bytes _ _ _ = none

one_byte : Option ℕ → Option ℕ → Option (List ℕ)
one_byte (some a) (some b) = some (byte_0 a b ∷ [])
one_byte _ _ = none

abbrev is_empty : List ℕ → Bool
is_empty [] = true
is_empty (x ∷ xs) = false

-- Four characters stand for three bytes; `=` may stand only at the very end.
quanta : List ℕ → Option (List ℕ)
unfolding sextet quantum two_bytes one_byte
quanta [] = some []
quanta (a ∷ (b ∷ (c ∷ (d ∷ rest)))) =
    let more = quanta rest in
    if nat_beq d pad
    then (if is_empty rest
        then (if nat_beq c pad
            then one_byte (sextet a) (sextet b)
            else two_bytes (sextet a) (sextet b) (sextet c))
        else none)
    else quantum (sextet a) (sextet b) (sextet c) (sextet d) more
quanta _ = none

abbrev is_break : ℕ → Bool
is_break c = nat_beq c 10 || nat_beq c 13

-- `base64.URLEncoding.DecodeString`.
unfoldable pub decode_codes : List ℕ → Option (List ℕ)
unfolding quanta
decode_codes s = quanta (keep (λ c. not (is_break c)) s)

unfoldable pub decode : String → Option (List ℕ)
unfolding decode_codes
decode s = decode_codes (codes s)

unfoldable pub char_at : String → ℕ → Char → Char
char_at String.[] n d = d
char_at (String.◌∷◌ c s) zero d = c
char_at (String.◌∷◌ c s) (suc n) d = char_at s n d

symbol : ℕ → Char
unfolding char_at
symbol n = char_at "ABCDEFGHIJKLMNOPQRSTUVWXYZabcdefghijklmnopqrstuvwxyz0123456789-_" n "="

-- `base64.URLEncoding.EncodeToString`.
unfoldable pub encode : List ℕ → String
unfolding symbol
encode [] = ""
encode (x ∷ []) =
    String.◌∷◌ (symbol (x / 4))
      (String.◌∷◌ (symbol (x % 4 * 16)) (String.◌∷◌ "=" (String.◌∷◌ "=" "")))
encode (x ∷ (y ∷ [])) = String.◌∷◌ (symbol (x / 4)) (
    String.◌∷◌ (symbol (x % 4 * 16 + y / 16))
      (String.◌∷◌ (symbol (y % 16 * 4)) (String.◌∷◌ "=" "")))
encode (x ∷ (y ∷ (z ∷ rest))) = String.◌∷◌ (symbol (x / 4)) (
    String.◌∷◌ (symbol (x % 4 * 16 + y / 16))
      (String.◌∷◌ (symbol (y % 16 * 4 + z / 64)) (String.◌∷◌ (symbol (z % 64)) (encode rest))))

-- `base64.RawURLEncoding.EncodeToString`: the same without padding.
unfoldable pub raw_encode : List ℕ → String
unfolding symbol
raw_encode [] = ""
raw_encode (x ∷ []) = String.◌∷◌ (symbol (x / 4)) (String.◌∷◌ (symbol (x % 4 * 16)) "")
raw_encode (x ∷ (y ∷ [])) =
    String.◌∷◌ (symbol (x / 4))
      (String.◌∷◌ (symbol (x % 4 * 16 + y / 16)) (String.◌∷◌ (symbol (y % 16 * 4)) ""))
raw_encode (x ∷ (y ∷ (z ∷ rest))) = String.◌∷◌ (symbol (x / 4)) (
    String.◌∷◌ (symbol (x % 4 * 16 + y / 16))
      (String.◌∷◌ (symbol (y % 16 * 4 + z / 64)) (String.◌∷◌ (symbol (z % 64)) (raw_encode rest))))

encode_tests :
    (encode (104 ∷ 105 ∷ []) ≡ "aGk=")
    × (decode "aGk=" ≡ some (104 ∷ 105 ∷ []))
    × (decode "aG" ≡ none)
    × (raw_encode (104 ∷ 105 ∷ []) ≡ "aGk")
unfolding encode decode raw_encode
encode_tests = (refl, refl, refl, refl)
