-- ===== src/Service/Sad/Compare.antt =====
-- The constant-time comparison decides equality.
use Prim.Native.Nat.{bit_or, bit_xor}
use go_r2ps_service.Base.{
  ℕ, ◌≡◌, ◌↔◌, refl, true, [], ◌∷◌, arith, length, nat_beq, Bool-cases, inl, inr, nat_beq_iff,
}
use go_r2ps_service.Base.Bits.{bit_xor-eq-zero_iff, bit_or-eq-zero_iff}
use go_r2ps_service.Protocol.{Bytes}
use go_r2ps_service.Service.Sad.{fold_difference, bytes_equal_constant}

-- The accumulated difference is 0 exactly if it was 0 before and the rest is equal.
fold_difference_sound :
    (r : ℕ) (a b : Bytes) → length a ≡ length b → fold_difference r a b ≡ 0 → (r ≡ 0) × (a ≡ b)
unfolding fold_difference
fold_difference_sound r [] [] l h = (h, refl)
fold_difference_sound r [] (y ∷ b) l h = absurd (omega arith)
fold_difference_sound r (x ∷ a) [] l h = absurd (omega arith)
fold_difference_sound r (x ∷ a) (y ∷ b) l h =
    let (none_yet, rest) = fold_difference_sound (bit_or r (bit_xor x y)) a b (omega arith) h in
    let (before, here) = (bit_or-eq-zero_iff r (bit_xor x y)).0 none_yet in
    let same : x ≡ y = (bit_xor-eq-zero_iff x y).0 here in (before, cc (same, rest))

fold_difference_self : (a : Bytes) → fold_difference 0 a a ≡ 0
unfolding fold_difference
fold_difference_self [] = refl
fold_difference_self (x ∷ a) =
    rw ((bit_or-eq-zero_iff 0 (bit_xor x x)).1 (refl, (bit_xor-eq-zero_iff x x).1 refl))
      (fold_difference_self a)

-- The constant-time comparison says yes exactly on equal byte strings.
pub bytes_equal_constant_iff : (a b : Bytes) → (bytes_equal_constant a b ≡ true) ↔ (a ≡ b)
unfolding bytes_equal_constant
bytes_equal_constant_iff a b = (sound, λ e. rw e (self b))
  where
    sound : bytes_equal_constant a b ≡ true → a ≡ b
    sound h = elim (Bool-cases (nat_beq (length a) (length b))) [
      | inl same ↦
          (fold_difference_sound 0 a b ((nat_beq_iff _ _).0 same)
            ((nat_beq_iff _ _).0 (rw same at h))).1
      | inr other ↦ cc (other)
    ]

    self : (c : Bytes) → bytes_equal_constant c c ≡ true
    self c = rw ((nat_beq_iff (length c) (length c)).1 refl, fold_difference_self c)
