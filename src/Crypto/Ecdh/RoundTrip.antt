-- ===== src/Crypto/Ecdh/RoundTrip.antt =====
-- That compressed points come back.
use go_r2ps_service.Base.{
  ℕ, suc, ◌+◌, ◌-◌, ◌*◌, ◌%◌, ◌^◌, ◌≤◌, ◌<◌, ◌≡◌, ap, sym, ◌∙◌, ◌⊎◌, inl, inr, false, none, some,
  ◌∷◌, ◌++◌, arith, nat_beq, ltb, length, length-append, take, replicate, if◌then◌else◌,
}
use go_r2ps_service.Base.Big.{
  big_int, big_bytes, big_int-big_bytes, length-big_bytes, big_int-zeros, length-zeros,
  length-replicate,
}
use go_r2ps_service.Protocol.{Bytes}
use go_r2ps_service.Crypto.Ecdh.{
  CurveMethods, byte_len, form_of, y_squared, with_parity, decompress_y,
  marshal_compressed_public_key, decompress_public_key, with_x,
}

-- What the code relies on: p is odd and fits the size, a square modulo p has no roots but two
-- opposite ones, which holds as p is a prime, and `ModSqrt` gives a root where there is one.
pub record IsCurve (c : CurveMethods) : Type 0 where
  pub odd : c.p % 2 ≡ 1
  pub fits : c.p ≤ 256 ^ byte_len c
  pub two_roots :
      (y z : ℕ) → y < c.p → z < c.p → y * y % c.p ≡ z * z % c.p → (y ≡ z) ⊎ (y + z ≡ c.p)
  pub root :
      (y : ℕ)
      → y < c.p
      → (z : ℕ) × (c.mod_sqrt (y * y % c.p) ≡ some z) × (z < c.p) × (z * z % c.p ≡ y * y % c.p)

pub record IsOnCurve (c : CurveMethods) (x y : ℕ) : Type 0 where
  pub reduced_x : x < c.p
  pub reduced_y : y < c.p
  pub equation : y * y % c.p ≡ y_squared c x

copied_behind :
    (form k : ℕ) (bs : Bytes)
    → length bs ≤ k
    → (if ltb (suc (length {A = ℕ} (replicate k 0))) (length bs)
        then none
        else some
            (take (suc (length {A = ℕ} (replicate k 0)) - length bs) (form ∷ replicate k 0) ++ bs))
      ≡ some (form ∷ (take (k - length bs) (replicate k 0) ++ bs))
copied_behind form k bs p = rw (length-replicate k, inside, first)
  where
    inside : ltb (suc k) (length bs) ≡ false
    inside = ground arith

    first : suc k - length bs ≡ suc (k - length bs)
    first = omega arith

module _ (c : CurveMethods) (k : IsCurve c) where
  -- Of two opposite roots the parity picks the one that it was taken from.
  with_parity_lem :
      (y z : ℕ)
      → y < c.p
      → z < c.p
      → z * z % c.p ≡ y * y % c.p
      → with_parity c (nat_beq (form_of c y) 0x03) (some z) ≡ some y
  with_parity_lem y z py pz h = elim (k.two_roots y z py pz (sym h)) [
    | inl same ↦ ap some (ground (arith, same))
    | inr opposite ↦ ap some (ground (arith, opposite, k.odd))
  ]

  compressed :
      (x y : ℕ)
      → x < c.p
      → marshal_compressed_public_key c (x, y)
        ≡ some (
            form_of c y
            ∷ (take (byte_len c - length (big_bytes x)) (replicate (byte_len c) 0) ++ big_bytes x))
  unfolding marshal_compressed_public_key
  compressed x y p =
      copied_behind (form_of c y) (byte_len c) (big_bytes x)
        (length-big_bytes (byte_len c) x (omega (arith, k.fits, p)))

  decompress-form :
      (y : ℕ) (rest : Bytes)
      → length rest ≡ byte_len c
      → decompress_public_key c (form_of c y ∷ rest)
        ≡ with_x c (big_int 0 rest) (decompress_y c (big_int 0 rest) (nat_beq (form_of c y) 0x03))
  unfolding decompress_public_key
  decompress-form y rest h = ground (arith, h)

  decompress_y-form :
      (x y : ℕ) → IsOnCurve c x y → decompress_y c x (nat_beq (form_of c y) 0x03) ≡ some y
  unfolding decompress_y
  decompress_y-form x y on =
      let (z, found, pz, h) = k.root y on.reduced_y in
      ap (λ a. with_parity c (nat_beq (form_of c y) 0x03) (c.mod_sqrt a)) (sym on.equation)
      ∙ ap (with_parity c (nat_beq (form_of c y) 0x03)) found
      ∙ with_parity_lem y z on.reduced_y pz h

  abbrev behind_form : ℕ → Bytes
  behind_form x = take (byte_len c - length (big_bytes x)) (replicate (byte_len c) 0) ++ big_bytes x

  length-behind_form : (x : ℕ) → x < c.p → length (behind_form x) ≡ byte_len c
  length-behind_form x p = omega (
    arith,
    length-append (take (byte_len c - length (big_bytes x)) (replicate (byte_len c) 0))
        (big_bytes x),
    length-zeros (byte_len c - length (big_bytes x)) (byte_len c) (omega arith),
    length-big_bytes (byte_len c) x (omega (arith, k.fits, p)),
  )

  big_int-behind_form : (x : ℕ) → big_int 0 (behind_form x) ≡ x
  big_int-behind_form x =
      big_int-zeros (byte_len c - length (big_bytes x)) (byte_len c) (big_bytes x)
      ∙ big_int-big_bytes x

  -- A point on a curve of NIST's form is always compressed without a panic, and comes back from its
  -- compressed form.
  pub decompress-marshal :
      (x y : ℕ)
      → IsOnCurve c x y
      → (bytes : Bytes) × (marshal_compressed_public_key c (x, y) ≡ some bytes)
        × (decompress_public_key c bytes ≡ some (x, y))
  decompress-marshal x y on = (
    form_of c y ∷ behind_form x,
    compressed x y on.reduced_x,
    decompress-form y (behind_form x) (length-behind_form x on.reduced_x)
        ∙ ap (λ v. with_x c v (decompress_y c v (nat_beq (form_of c y) 0x03)))
            (big_int-behind_form x)
        ∙ ap (with_x c x) (decompress_y-form x y on),
  )
