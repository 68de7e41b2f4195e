-- ===== src/Base/Exec/Runs.antt =====
-- Runs that go well, step by step: what a step gives, and what the rest then ends with.
use go_r2ps_service.Base.{◌≡◌, Bool, true, Option, some}
use go_r2ps_service.Base.Exec.{Result, ok, Exec, ◌>>=◌, ◌>>◌, pure, gets, require, guard, modify}

module _ {ℓ κ μ ν} {S : Type ℓ} {E : Type κ} {A : Type μ} {B : Type ν} (s : S)
    (r : Result E B × S) where
  pub >>=-runs :
      (m : Exec S E A) (f : A → Exec S E B) {a : A} {t : S}
      → m s ≡ (ok a, t)
      → f a t ≡ r
      → (m >>= f) s ≡ r
  unfolding ◌>>=◌
  >>=-runs m f h k = rw h k

  pub require-runs :
      (o : Option A) (e : E) (f : A → Exec S E B) {a : A}
      → o ≡ some a
      → f a s ≡ r
      → (require o e >>= f) s ≡ r
  unfolding ◌>>=◌ require pure
  require-runs o e f h k = rw h k

  pub gets-runs : (g : S → A) (f : A → Exec S E B) → f (g s) s ≡ r → (gets g >>= f) s ≡ r
  unfolding ◌>>=◌ gets
  gets-runs g f k = k

module _ {ℓ κ ν} {S : Type ℓ} {E : Type κ} {B : Type ν} (s : S) (r : Result E B × S) where
  pub guard-runs : (b : Bool) (e : E) (f : Exec S E B) → b ≡ true → f s ≡ r → (guard b e >> f) s ≡ r
  unfolding ◌>>=◌ guard pure
  guard-runs b e f h k = rw h k

  pub modify-runs : (g : S → S) (f : Exec S E B) → f (g s) ≡ r → (modify g >> f) s ≡ r
  unfolding ◌>>=◌ modify
  modify-runs g f k = k
