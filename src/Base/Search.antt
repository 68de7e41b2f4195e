-- ===== src/Base/Search.antt =====
-- What the test for an item of a list finds.
use go_r2ps_service.Base.{◌≡◌, Bool, true, List, [], ◌∷◌, any, Any, Bool-cases, inl, inr}

module _ {ℓ} {A : Type ℓ} (p : A → Bool) where
  pub any→Any :
      (P : A → Type 0) → ((a : A) → p a ≡ true → P a) → (xs : List A) → any p xs ≡ true → Any P xs
  any→Any P sound [] h = cc
  any→Any P sound (x ∷ xs) h = elim (Bool-cases (p x)) [
    | inl hit ↦ inl (sound x hit)
    | inr miss ↦ inr (any→Any P sound xs (rw miss at h))
  ]

  pub Any→any :
      (P : A → Type 0) → ((a : A) → P a → p a ≡ true) → (xs : List A) → Any P xs → any p xs ≡ true
  Any→any P complete [] h = absurd h
  Any→any P complete (x ∷ xs) (inl here) = rw (complete x here)
  Any→any P complete (x ∷ xs) (inr later) = elim (Bool-cases (p x)) [
    | inl hit ↦ rw hit
    | inr miss ↦ rw miss (Any→any P complete xs later)
  ]
