-- ===== src/Base/Big.antt =====
-- `big.Int`, of which the program only has numbers that are not negative: its bytes.
use go_r2ps_service.Base.{
  ℕ, zero, suc, ◌+◌, ◌*◌, ◌/◌, ◌%◌, ◌^◌, ◌≤◌, ◌<◌, ◌≡◌, refl, ap, ◌∙◌, List, [], ◌∷◌, ◌++◌, arith,
  length, take, replicate,
}

-- `SetBytes`, from a first value on.
abbrev pub big_int : ℕ → List ℕ → ℕ
big_int acc [] = acc
big_int acc (b ∷ bs) = big_int (acc * 256 + b) bs

-- The bytes of a `big.Int`, the highest first and none for 0. A number is at least its count of
-- bytes, so that much fuel is enough.
big_bytes_from : ℕ → ℕ → List ℕ → List ℕ
big_bytes_from fuel zero acc = acc
big_bytes_from zero (suc n) acc = acc
big_bytes_from (suc fuel) (suc n) acc = big_bytes_from fuel (suc n / 256) (suc n % 256 ∷ acc)

unfoldable pub big_bytes : ℕ → List ℕ
unfolding big_bytes_from
big_bytes n = big_bytes_from n n []

big_int-big_bytes_from :
    (fuel n : ℕ) (acc : List ℕ) → n ≤ fuel → big_int 0 (big_bytes_from fuel n acc) ≡ big_int n acc
unfolding big_bytes_from
big_int-big_bytes_from fuel zero acc p = refl
big_int-big_bytes_from zero (suc n) acc p = absurd (omega arith)
big_int-big_bytes_from (suc fuel) (suc n) acc p =
    big_int-big_bytes_from fuel (suc n / 256) (suc n % 256 ∷ acc) (omega arith)
    ∙ ap (λ v. big_int v acc) (omega arith)

-- The bytes of a number read as that number.
pub big_int-big_bytes : (n : ℕ) → big_int 0 (big_bytes n) ≡ n
unfolding big_bytes
big_int-big_bytes n = big_int-big_bytes_from n n [] (omega arith)

length-big_bytes_from :
    (k fuel n : ℕ) (acc : List ℕ)
    → n < 256 ^ k
    → length (big_bytes_from fuel n acc) ≤ k + length acc
unfolding big_bytes_from
length-big_bytes_from k fuel zero acc p = omega arith
length-big_bytes_from k zero (suc n) acc p = omega arith
length-big_bytes_from zero (suc fuel) (suc n) acc p = absurd (omega arith)
length-big_bytes_from (suc k) (suc fuel) (suc n) acc p =
    omega (arith, length-big_bytes_from k fuel (suc n / 256) (suc n % 256 ∷ acc) (omega arith))

-- A number below 256^k has at most k bytes.
pub length-big_bytes : (k n : ℕ) → n < 256 ^ k → length (big_bytes n) ≤ k
unfolding big_bytes
length-big_bytes k n p = omega (arith, length-big_bytes_from k n n [] p)

-- Zeros in front change nothing.
pub big_int-zeros :
    (j k : ℕ) (bs : List ℕ) → big_int 0 (take j (replicate k 0) ++ bs) ≡ big_int 0 bs
big_int-zeros zero k bs = refl
big_int-zeros (suc j) zero bs = refl
big_int-zeros (suc j) (suc k) bs = big_int-zeros j k bs

pub length-zeros : (j k : ℕ) → j ≤ k → length {A = ℕ} (take j (replicate k 0)) ≡ j
length-zeros zero k p = refl
length-zeros (suc j) zero p = absurd (omega arith)
length-zeros (suc j) (suc k) p = ap suc (length-zeros j k (omega arith))

pub length-replicate : (k : ℕ) → length {A = ℕ} (replicate k 0) ≡ k
length-replicate zero = refl
length-replicate (suc k) = ap suc (length-replicate k)
