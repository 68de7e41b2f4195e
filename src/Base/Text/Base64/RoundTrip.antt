-- ===== src/Base/Text/Base64/RoundTrip.antt =====
-- What is encoded is decoded.
use Prim.Native.Char.{code}
use go_r2ps_service.Base.{
  ℕ, zero, suc, ◌+◌, ◌*◌, ◌/◌, ◌%◌, ◌<◌, ◌≡◌, refl, ap, inl, inr, Bool, true, false, ◌&&◌, not,
  Option, none, some, List, [], ◌∷◌, All, keep, nat_beq, nat_beq_iff, arith, Bool-cases,
}
use go_r2ps_service.Base.Text.{codes}
use go_r2ps_service.Base.Text.Base64.{
  sextet, quanta, quantum, two_bytes, one_byte, is_break, pad, symbol, char_at, encode, decode,
  decode_codes, byte_0, byte_1, byte_2,
}

-- The code of the character that stands for six bits.
abbrev at : ℕ → ℕ
at n = code (symbol n)

abbrev is_some_of : ℕ → Option ℕ → Bool
is_some_of n none = false
is_some_of n (some m) = nat_beq m n

abbrev is_good : ℕ → Bool
is_good n = is_some_of n (sextet (at n)) && (not (is_break (at n)) && not (nat_beq (at n) pad))

abbrev all_below : ℕ → (ℕ → Bool) → Bool
all_below zero p = true
all_below (suc n) p = p n && all_below n p

all_below-at : (n : ℕ) (p : ℕ → Bool) (k : ℕ) → all_below n p ≡ true → k < n → p k ≡ true
all_below-at zero p k h b = absurd (omega arith)
all_below-at (suc n) p k h b = elim (Bool-cases (nat_beq k n)) [
  | inl last ↦ rw ((nat_beq_iff k n).0 last) (ground (arith, h))
  | inr other ↦ all_below-at n p k (ground (arith, h)) (ground (arith, other, b))
]

sixty_four : all_below 64 is_good ≡ true
unfolding sextet symbol char_at
sixty_four = refl

good_at :
    (n : ℕ)
    → n < 64
    → (sextet (at n) ≡ some n) × (is_break (at n) ≡ false) × (nat_beq (at n) pad ≡ false)
good_at n b = ground (arith, all_below-at 64 is_good n sixty_four b)

quanta-encode :
    (bytes : List ℕ)
    → All (λ b. b < 256) bytes
    → quanta (keep (λ c. not (is_break c)) (codes (encode bytes))) ≡ some bytes
unfolding quanta encode quantum two_bytes one_byte
quanta-encode [] h = refl
quanta-encode (x ∷ []) (bx, _) =
    let (s0, k0, _) = good_at (x / 4) (omega arith) in
    let (s1, k1, _) = good_at (x % 4 * 16) (omega arith) in
    rw (k0, k1, s0, s1) (ap (λ a. some (a ∷ [])) (omega arith))
quanta-encode (x ∷ (y ∷ [])) (bx, (byy, _)) =
    let (s0, k0, _) = good_at (x / 4) (omega arith) in
    let (s1, k1, _) = good_at (x % 4 * 16 + y / 16) (omega arith) in
    let (s2, k2, p2) = good_at (y % 16 * 4) (omega arith) in
    let e0 : byte_0 (x / 4) (x % 4 * 16 + y / 16) ≡ x = omega arith in
    let e1 : byte_1 (x % 4 * 16 + y / 16) (y % 16 * 4) ≡ y = omega arith in
    rw (k0, k1, k2, p2, s0, s1, s2) (λ i. some (e0 i ∷ (e1 i ∷ [])))
quanta-encode (x ∷ (y ∷ (z ∷ rest))) (bx, (byy, (bz, more))) =
    let (s0, k0, _) = good_at (x / 4) (omega arith) in
    let (s1, k1, _) = good_at (x % 4 * 16 + y / 16) (omega arith) in
    let (s2, k2, _) = good_at (y % 16 * 4 + z / 64) (omega arith) in
    let (s3, k3, p3) = good_at (z % 64) (omega arith) in
    let e0 : byte_0 (x / 4) (x % 4 * 16 + y / 16) ≡ x = omega arith in
    let e1 : byte_1 (x % 4 * 16 + y / 16) (y % 16 * 4 + z / 64) ≡ y = omega arith in
    let e2 : byte_2 (y % 16 * 4 + z / 64) (z % 64) ≡ z = omega arith in
    rw (k0, k1, k2, k3, p3, s0, s1, s2, s3, quanta-encode rest more)
      (λ i. some (e0 i ∷ (e1 i ∷ (e2 i ∷ rest))))

-- Encoded bytes are decoded to just these bytes.
pub decode-encode : (bytes : List ℕ) → All (λ b. b < 256) bytes → decode (encode bytes) ≡ some bytes
unfolding decode decode_codes
decode-encode bytes h = quanta-encode bytes h
