-- ===== src/Base/Exec.antt =====
-- Results, and methods that change a state and may fail: what was written before a failure stays
-- written, so the state comes back beside the error too.
pub mod Runs
use go_r2ps_service.Base.{◌≡◌, refl, Bool, true, false, Option, none, some}

pub data Result {ℓ κ} (E : Type ℓ) (A : Type κ) : Type (ℓ ⊔ κ) where
  ok : A → Result E A
  err : E → Result E A

abbrev pub Exec {ℓ κ μ} : Type ℓ → Type κ → Type μ → Type (ℓ ⊔ κ ⊔ μ)
Exec S E A = S → Result E A × S

module _ {ℓ κ μ ν} {S : Type ℓ} {E : Type κ} {A : Type μ} {B : Type ν} where
  abbrev pub next : Result E A → (A → Exec S E B) → S → Result E B × S
  next (ok a) f s = f a s
  next (err e) f s = (err e, s)

  infixl 5 ◌>>=◌ ◌>>◌
  unfoldable pub ◌>>=◌ : Exec S E A → (A → Exec S E B) → Exec S E B
  ◌>>=◌ m f s = next (m s).0 f (m s).1

  abbrev pub ◌>>◌ : Exec S E A → Exec S E B → Exec S E B
  m >> n = m >>= λ _. n

module _ {ℓ κ μ} {S : Type ℓ} {E : Type κ} {A : Type μ} where
  unfoldable pub pure : A → Exec S E A
  pure a s = (ok a, s)

  unfoldable pub fail : E → Exec S E A
  fail e s = (err e, s)

  unfoldable pub gets : (S → A) → Exec S E A
  gets f s = (ok (f s), s)

  -- `v, err := f(); if err != nil { return e }` for a call that changes nothing.
  unfoldable pub require : Option A → E → Exec S E A
  unfolding pure fail
  require (some a) e = pure a
  require none e = fail e

  -- A call that reads the state and may fail.
  unfoldable pub read : (S → Result E A) → Exec S E A
  read f s = (f s, s)

module _ {ℓ κ} {S : Type ℓ} {E : Type κ} where
  unfoldable pub modify : (S → S) → Exec S E (Unit {0})
  modify f s = (ok tt, f s)

  -- `if !b { return e }`.
  unfoldable pub guard : Bool → E → Exec S E (Unit {0})
  unfolding pure fail
  guard true e = pure tt
  guard false e = fail e

-- How a checked step goes on, as equations to split on.
module _ {ℓ κ μ ν} {S : Type ℓ} {E : Type κ} {A : Type μ} {B : Type ν} where
  -- A run that ends well has passed its first step.
  pub >>=-eq-ok :
      (m : Exec S E A) (f : A → Exec S E B) (s : S) {b : B}
      → ((m >>= f) s).0 ≡ ok b
      → (a : A) × ((m s).0 ≡ ok a) × ((f a (m s).1).0 ≡ ok b)
  unfolding ◌>>=◌
  >>=-eq-ok m f s = go (m s).0 (m s).1
    where
      go :
          (r : Result E A) (s' : S) {b : B}
          → (next r f s').0 ≡ ok b
          → (a : A) × (r ≡ ok a) × ((f a s').0 ≡ ok b)
      go (ok a) s' h = (a, refl, h)
      go (err e) s' h = cc

-- To split on a checked step of a run: `P` is what is to be shown of the whole run.
module _ {ℓ κ μ ν ξ} {S : Type ℓ} {E : Type κ} {A : Type μ} {B : Type ν} (s : S)
    (P : Result E B × S → Type ξ) where
  pub require-elim :
      (o : Option A) (e : E) (f : A → Exec S E B)
      → P (err e, s)
      → ((a : A) → o ≡ some a → P (f a s))
      → P ((require o e >>= f) s)
  unfolding ◌>>=◌ require pure fail
  require-elim (some a) e f p q = q a refl
  require-elim none e f p q = p

module _ {ℓ κ ν ξ} {S : Type ℓ} {E : Type κ} {B : Type ν} (s : S)
    (P : Result E B × S → Type ξ) where
  pub guard-elim :
      (b : Bool) (e : E) (f : Exec S E B)
      → (b ≡ false → P (err e, s))
      → (b ≡ true → P (f s))
      → P ((guard b e >> f) s)
  unfolding ◌>>=◌ guard pure fail
  guard-elim true e f p q = q refl
  guard-elim false e f p q = p refl

module _ {ℓ κ μ ν ξ} {S : Type ℓ} {E : Type κ} {A : Type μ} {B : Type ν} (s : S)
    (P : Result E B × S → Type ξ) where
  pub gets-elim : (g : S → A) (f : A → Exec S E B) → P (f (g s) s) → P ((gets g >>= f) s)
  unfolding ◌>>=◌ gets
  gets-elim g f p = p

module _ {ℓ κ ν ξ} {S : Type ℓ} {E : Type κ} {B : Type ν} (s : S)
    (P : Result E B × S → Type ξ) where
  pub modify-elim : (g : S → S) (f : Exec S E B) → P (f (g s)) → P ((modify g >> f) s)
  unfolding ◌>>=◌ modify
  modify-elim g f p = p

module _ {ℓ κ μ ν ξ} {S : Type ℓ} {E : Type κ} {A : Type μ} {B : Type ν} (s : S)
    (P : Result E B × S → Type ξ) where
  pub read-elim :
      (g : S → Result E A) (f : A → Exec S E B)
      → ((e : E) → g s ≡ err e → P (err e, s))
      → ((a : A) → g s ≡ ok a → P (f a s))
      → P ((read g >>= f) s)
  unfolding ◌>>=◌ read
  read-elim g f p q = go (g s) p q
    where
      go :
          (r : Result E A)
          → ((e : E) → r ≡ err e → P (err e, s))
          → ((a : A) → r ≡ ok a → P (f a s))
          → P (next r f s)
      go (ok a) p q = q a refl
      go (err e) p q = p e refl

  -- Any first step, with what it has given and the state that it has left.
  pub >>=-elim :
      (m : Exec S E A) (f : A → Exec S E B)
      → ((e : E) (t : S) → m s ≡ (err e, t) → P (err e, t))
      → ((a : A) (t : S) → m s ≡ (ok a, t) → P (f a t))
      → P ((m >>= f) s)
  unfolding ◌>>=◌
  >>=-elim m f p q = go (m s) p q
    where
      go :
          (r : Result E A × S)
          → ((e : E) (t : S) → r ≡ (err e, t) → P (err e, t))
          → ((a : A) (t : S) → r ≡ (ok a, t) → P (f a t))
          → P (next r.0 f r.1)
      go (ok a, t) p q = q a t refl
      go (err e, t) p q = p e t refl

-- A block that starts with a block runs the steps of that first.
module _ {ℓ κ μ ν ξ ρ} {S : Type ℓ} {E : Type κ} {A : Type μ} {B : Type ν} {C : Type ξ} (s : S)
    (P : Result E C × S → Type ρ) where
  pub >>=-assoc-elim :
      (m : Exec S E A) (g : A → Exec S E B) (f : B → Exec S E C)
      → P ((m >>= λ a. g a >>= f) s)
      → P (((m >>= g) >>= f) s)
  unfolding ◌>>=◌
  >>=-assoc-elim m g f = go (m s).0 (m s).1
    where
      go :
          (r : Result E A) (s' : S)
          → P (next r (λ a. g a >>= f) s')
          → P (next (next r g s').0 f (next r g s').1)
      go (ok a) s' p = p
      go (err e) s' p = p

module _ {ℓ κ μ ν ξ} {S : Type ℓ} {E : Type κ} {A : Type μ} {B : Type ν} (s : S)
    (P : Result E B × S → Type ξ) where
  pub pure-elim : (a : A) (f : A → Exec S E B) → P (f a s) → P ((pure a >>= f) s)
  unfolding ◌>>=◌ pure
  pure-elim a f p = p

  pub fail-elim : (e : E) (f : A → Exec S E B) → P (err e, s) → P ((fail e >>= f) s)
  unfolding ◌>>=◌ fail
  fail-elim e f p = p
