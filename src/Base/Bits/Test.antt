-- ===== src/Base/Bits/Test.antt =====
-- What an and with a power of two tests.
use Prim.Native.Nat.{bit_and, bit_and-bitwise, digits, min}
use go_r2ps_service.Base.{ℕ, zero, suc, ◌+◌, ◌*◌, ◌/◌, ◌%◌, ◌≤◌, ◌<◌, ◌≡◌, refl, ap, arith}

common_digits : ℕ → ℕ → ℕ → ℕ
common_digits fuel a b = digits (λ b. zero) min fuel a b

common_digits_stable : (m n a b : ℕ) → a ≤ m → a ≤ n → common_digits m a b ≡ common_digits n a b
unfolding common_digits
common_digits_stable zero zero a b p q = refl
common_digits_stable zero (suc n) zero b p q = refl
common_digits_stable zero (suc n) (suc a) b p q = absurd (omega arith)
common_digits_stable (suc m) zero zero b p q = refl
common_digits_stable (suc m) zero (suc a) b p q = absurd (omega arith)
common_digits_stable (suc m) (suc n) zero b p q = refl
common_digits_stable (suc m) (suc n) (suc a) b p q =
    ap (λ h. h * 2 + min (suc a % 2) (b % 2))
      (common_digits_stable m n (suc a / 2) (b / 2) (omega arith) (omega arith))

and_nothing : (b : ℕ) → bit_and 0 b ≡ 0
and_nothing b = bit_and-bitwise 0 b

and_halves : (a b : ℕ) → bit_and a b ≡ bit_and (a / 2) (b / 2) * 2 + min (a % 2) (b % 2)
unfolding common_digits
and_halves zero b = omega (arith, and_nothing b, and_nothing (b / 2))
and_halves (suc a) b = omega (
  arith,
  bit_and-bitwise (suc a) b,
  bit_and-bitwise (suc a / 2) (b / 2),
  common_digits_stable a (suc a / 2) (suc a / 2) (b / 2) (omega arith) (omega arith),
)

min_digit : (x : ℕ) → x < 2 → min x 1 ≡ x
min_digit zero h = refl
min_digit (suc zero) h = refl
min_digit (suc (suc x)) h = absurd (omega arith)

min_zero : (x : ℕ) → min x 0 ≡ 0
min_zero x = omega arith

common_zero : (n a : ℕ) → common_digits n a 0 ≡ 0
unfolding common_digits
common_zero zero a = refl
common_zero (suc n) zero = refl
common_zero (suc n) (suc a) = omega (arith, common_zero n (suc a / 2), min_zero (suc a % 2))

and_zero : (a : ℕ) → bit_and a 0 ≡ 0
unfolding common_digits
and_zero a = omega (arith, bit_and-bitwise a 0, common_zero a a)

pub and_one : (a : ℕ) → bit_and a 1 ≡ a % 2
and_one a = omega (arith, and_halves a 1, and_zero (a / 2), min_digit (a % 2) (omega arith))

pub and_four : (a : ℕ) → bit_and a 4 ≡ a / 4 % 2 * 4
and_four a = omega (
  arith,
  and_halves a 4,
  and_halves (a / 2) 2,
  and_one (a / 2 / 2),
  min_zero (a % 2),
  min_zero (a / 2 % 2),
)
