-- ===== src/Base/Bits/Fields.antt =====
-- An or, field by field: the fields are two bits wide, as in a status list.
use Prim.Native.Nat.{bit_or, bit_or-bitwise, digits, max}
use go_r2ps_service.Base.{
  ℕ, zero, suc, ◌+◌, ◌*◌, ◌/◌, ◌%◌, ◌^◌, ◌≤◌, ◌<◌, ◌≡◌, refl, sym, ap, ◌∙◌, arith, nat_beq,
  if◌then◌else◌,
}

joined_digits : ℕ → ℕ → ℕ → ℕ
joined_digits fuel a b = digits (λ b. b) max fuel a b

-- More fuel than the number needs changes nothing.
joined_digits_stable : (m n a b : ℕ) → a ≤ m → a ≤ n → joined_digits m a b ≡ joined_digits n a b
unfolding joined_digits
joined_digits_stable zero zero a b p q = refl
joined_digits_stable zero (suc n) zero b p q = refl
joined_digits_stable zero (suc n) (suc a) b p q = absurd (omega arith)
joined_digits_stable (suc m) zero zero b p q = refl
joined_digits_stable (suc m) zero (suc a) b p q = absurd (omega arith)
joined_digits_stable (suc m) (suc n) zero b p q = refl
joined_digits_stable (suc m) (suc n) (suc a) b p q =
    ap (λ h. h * 2 + max (suc a % 2) (b % 2))
      (joined_digits_stable m n (suc a / 2) (b / 2) (omega arith) (omega arith))

or_none : (b : ℕ) → bit_or 0 b ≡ b
or_none b = bit_or-bitwise 0 b

-- An or goes by the lowest digit and the others.
or_halves : (a b : ℕ) → bit_or a b ≡ bit_or (a / 2) (b / 2) * 2 + max (a % 2) (b % 2)
unfolding joined_digits
or_halves zero b = omega (arith, or_none b, or_none (b / 2))
or_halves (suc a) b =
    bit_or-bitwise (suc a) b
    ∙ ap (λ h. h * 2 + max (suc a % 2) (b % 2))
        (joined_digits_stable a (suc a / 2) (suc a / 2) (b / 2) (omega arith) (omega arith)
          ∙ sym (bit_or-bitwise (suc a / 2) (b / 2)))

-- A field holds two digits.
or_fields :
    (a b : ℕ)
    → bit_or a b
      ≡ bit_or (a / 4) (b / 4) * 4 + max (a / 2 % 2) (b / 2 % 2) * 2 + max (a % 2) (b % 2)
or_fields a b =
    let halves : (a / 2 / 2 ≡ a / 4) × (b / 2 / 2 ≡ b / 4) = (omega arith, omega arith) in
    omega (arith, or_halves a b, rw (halves.0, halves.1) at (or_halves (a / 2) (b / 2)))

-- What is left of a number above its first `k` fields.
abbrev pub above : ℕ → ℕ → ℕ
above zero v = v
above (suc k) v = above k (v / 4)

abbrev pub field : ℕ → ℕ → ℕ
field k v = above k v % 4

or_fields_above : (a b : ℕ) → bit_or a b / 4 ≡ bit_or (a / 4) (b / 4)
or_fields_above a b = omega (arith, or_fields a b)

above-bit_or : (k a b : ℕ) → above k (bit_or a b) ≡ bit_or (above k a) (above k b)
above-bit_or zero a b = refl
above-bit_or (suc k) a b = rw (or_fields_above a b) (above-bit_or k (a / 4) (b / 4))

-- Where one side has an empty field, an or has the other side's.
pub field-bit_or :
    (k a b : ℕ)
    → (field k a ≡ 0 → field k (bit_or a b) ≡ field k b)
      × (field k b ≡ 0 → field k (bit_or a b) ≡ field k a)
field-bit_or k a b = rw (above-bit_or k a b) (
  λ h. omega (arith, or_fields (above k a) (above k b)),
  λ h. omega (arith, or_fields (above k a) (above k b)),
)

below_four-elim : (P : ℕ → Type 0) → P 0 → P 1 → P 2 → P 3 → (k : ℕ) → k < 4 → P k
below_four-elim P p q r s zero h = p
below_four-elim P p q r s (suc zero) h = q
below_four-elim P p q r s (suc (suc zero)) h = r
below_four-elim P p q r s (suc (suc (suc zero))) h = s
below_four-elim P p q r s (suc (suc (suc (suc k)))) h = absurd (omega arith)

-- A value of two digits, shifted to one of the four fields of a byte.
pub field-shift :
    (j k v : ℕ)
    → j < 4
    → k < 4
    → field j (v % 4 * 2 ^ (2 * k) % 256) ≡ (if nat_beq j k then v % 4 else 0)
field-shift j k v p q =
    let P : ℕ → ℕ → Type 0 =
      λ k j. field j (v % 4 * 2 ^ (2 * k) % 256) ≡ (if nat_beq j k then v % 4 else 0) in
    below_four-elim (λ k. P k j)
      (below_four-elim (P 0) (omega arith) (omega arith) (omega arith) (omega arith) j p)
      (below_four-elim (P 1) (omega arith) (omega arith) (omega arith) (omega arith) j p)
      (below_four-elim (P 2) (omega arith) (omega arith) (omega arith) (omega arith) j p)
      (below_four-elim (P 3) (omega arith) (omega arith) (omega arith) (omega arith) j p) k q

pub above_shift : (k v : ℕ) → k < 4 → above k v ≡ v / 2 ^ (2 * k)
above_shift k v p =
    below_four-elim (λ k. above k v ≡ v / 2 ^ (2 * k)) (omega arith) (omega arith) (omega arith)
      (omega arith) k p
