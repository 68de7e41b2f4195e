-- ===== src/Base/Bits.antt =====
-- What the program's constant-time comparison needs of `|` and `^` on bytes.
pub mod Fields
pub mod Test
use Prim.Native.Nat.{bit_or, bit_xor, bit_or-bitwise, bit_xor-bitwise, digits, differ, max}
use go_r2ps_service.Base.{ℕ, zero, suc, ◌/◌, ◌%◌, ◌≤◌, ◌≡◌, ◌↔◌, subst, refl, sym, ◌∙◌, ap, arith}

differ-eq-zero : (x y : ℕ) → differ x y ≡ 0 → x ≡ y
differ-eq-zero zero y h = sym h
differ-eq-zero (suc x) zero h = h
differ-eq-zero (suc x) (suc y) h = ap suc (differ-eq-zero x y h)

differ_self : (x : ℕ) → differ x x ≡ 0
differ_self zero = refl
differ_self (suc x) = differ_self x

xor_digits : (n a b : ℕ) → a ≤ n → digits (λ b. b) differ n a b ≡ 0 → a ≡ b
xor_digits zero zero b p h = sym h
xor_digits zero (suc a) b p h = absurd (omega arith)
xor_digits (suc n) zero b p h = sym h
xor_digits (suc n) (suc a) b p h = omega (
  arith,
  xor_digits n (suc a / 2) (b / 2) (omega arith) (omega arith),
  differ-eq-zero (suc a % 2) (b % 2) (omega arith),
)

xor_digits_self : (n a : ℕ) → a ≤ n → digits (λ b. b) differ n a a ≡ 0
xor_digits_self zero zero p = refl
xor_digits_self zero (suc a) p = absurd (omega arith)
xor_digits_self (suc n) zero p = refl
xor_digits_self (suc n) (suc a) p =
    omega (arith, xor_digits_self n (suc a / 2) (omega arith), differ_self (suc a % 2))

or_digits : (n a b : ℕ) → a ≤ n → digits (λ b. b) max n a b ≡ 0 → (a ≡ 0) × (b ≡ 0)
or_digits zero zero b p h = (refl, h)
or_digits zero (suc a) b p h = absurd (omega arith)
or_digits (suc n) zero b p h = (refl, h)
or_digits (suc n) (suc a) b p h =
    let rest = or_digits n (suc a / 2) (b / 2) (omega arith) (omega arith) in omega arith

-- Two numbers are equal exactly if their exclusive or is 0.
pub bit_xor-eq-zero_iff : (a b : ℕ) → (bit_xor a b ≡ 0) ↔ (a ≡ b)
bit_xor-eq-zero_iff a b = (
  λ h. xor_digits a a b (omega arith) (sym (bit_xor-bitwise a b) ∙ h),
  λ e. subst (λ c. bit_xor a c ≡ 0) e (bit_xor-bitwise a a ∙ xor_digits_self a a (omega arith)),
)

-- An or is 0 exactly if both sides are.
pub bit_or-eq-zero_iff : (a b : ℕ) → (bit_or a b ≡ 0) ↔ ((a ≡ 0) × (b ≡ 0))
bit_or-eq-zero_iff a b =
    (λ h. or_digits a a b (omega arith) (sym (bit_or-bitwise a b) ∙ h), λ e. rw (e.0, e.1))
