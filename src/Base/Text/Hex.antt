-- ===== src/Base/Text/Hex.antt =====
-- encoding/hex: `hex.DecodeString` and the lower-case encoding that it reads back.
use go_r2ps_service.Base.{
  ℕ, ◌+◌, ◌-◌, ◌*◌, ◌/◌, ◌%◌, ◌<◌, ◌≡◌, ◌≢◌, refl, false, ◌&&◌, Option, none, some, List, [], ◌∷◌,
  arith, leb, ltb, if◌then◌else◌, All,
}
use go_r2ps_service.Base.Text.Split.{NotIn, NoSpace}
use go_r2ps_service.Base.Text.{is_space}

digit_value : ℕ → Option ℕ
digit_value c =
    if leb b'0' c && leb c b'9'
    then some (c - b'0')
    else if leb b'a' c && leb c b'f'
    then some (c - b'a' + 10)
    else if leb b'A' c && leb c b'F'
    then some (c - b'A' + 10)
    else none

add_byte : Option ℕ → Option ℕ → Option (List ℕ) → Option (List ℕ)
add_byte (some hi) (some lo) (some rest) = some ((16 * hi + lo) ∷ rest)
add_byte _ _ _ = none

-- `none` for an odd length or a character that is no hexadecimal digit.
unfoldable pub decode : List ℕ → Option (List ℕ)
unfolding digit_value add_byte
decode [] = some []
decode (c ∷ []) = none
decode (c ∷ (d ∷ rest)) = add_byte (digit_value c) (digit_value d) (decode rest)

digit : ℕ → ℕ
digit n = if ltb n 10 then b'0' + n else b'a' + (n - 10)

unfoldable pub encode : List ℕ → List ℕ
unfolding digit
encode [] = []
encode (b ∷ bs) = digit (b / 16) ∷ (digit (b % 16) ∷ encode bs)

digit_value-digit : (n : ℕ) → n < 16 → digit_value (digit n) ≡ some n
unfolding digit_value digit
digit_value-digit n h = ground arith

abbrev pub IsBytes : List ℕ → Type 0
IsBytes = All (λ b. b < 256)

pub decode-encode : (bs : List ℕ) → IsBytes bs → decode (encode bs) ≡ some bs
unfolding encode
decode-encode [] h = unfold decode in refl
decode-encode (b ∷ bs) h =
    rw
      (
        decode_lem,
        digit_value-digit (b / 16) (omega arith),
        digit_value-digit (b % 16) (omega arith),
        decode-encode bs h.1,
      )
      (unfold add_byte in ground arith)
  where
    decode_lem :
        decode (digit (b / 16) ∷ (digit (b % 16) ∷ encode bs))
        ≡ add_byte
            (digit_value (digit (b / 16)))
            (digit_value (digit (b % 16)))
            (decode (encode bs))
    decode_lem = unfold decode in refl

-- An encoded text holds digits only: no separator and no white space.
digit-plain : (n : ℕ) → n < 16 → (digit n ≢ b',') × (is_space (digit n) ≡ false)
unfolding digit is_space
digit-plain n h = (ground arith, ground arith)

pub encode-NotIn : (bs : List ℕ) → IsBytes bs → NotIn b',' (encode bs)
unfolding encode
encode-NotIn [] h = tt
encode-NotIn (b ∷ bs) h =
    let hi = digit-plain (b / 16) (omega arith) in
    let lo = digit-plain (b % 16) (omega arith) in (hi.0, (lo.0, encode-NotIn bs h.1))

pub encode-NoSpace : (bs : List ℕ) → IsBytes bs → NoSpace (encode bs)
unfolding encode
encode-NoSpace [] h = tt
encode-NoSpace (b ∷ bs) h =
    let hi = digit-plain (b / 16) (omega arith) in
    let lo = digit-plain (b % 16) (omega arith) in (hi.1, (lo.1, encode-NoSpace bs h.1))
