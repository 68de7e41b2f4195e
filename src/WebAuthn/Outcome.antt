-- ===== src/WebAuthn/Outcome.antt =====
-- How a parser ends: with a value, with an error, or with a panic of the Go runtime. A slice past
-- the length counts as a panic here. Go lets it reach into the spare capacity of the array, after
-- which the parser finds its position out of range and returns an error instead.
use go_r2ps_service.Base.{
  ℕ, ◌+◌, ◌*◌, ◌≡◌, refl, arith, Bool, true, false, Option, none, some, [], ◌∷◌, leb, length, take,
  drop, get_elem?, if◌then◌else◌,
}
use go_r2ps_service.Base.Exec.{Result, ok, err}
use go_r2ps_service.Protocol.{Bytes}

-- `exhausted` is the model's own: a bound on the depth of a recursion was too small.
pub data Fault : Type 0 where
  rejected panicked exhausted : Fault

abbrev pub Outcome {ℓ} : Type ℓ → Type ℓ
Outcome A = Result Fault A

module _ {ℓ κ} {A : Type ℓ} {B : Type κ} where
  infixl 5 ◌>>=◌ ◌>>◌
  abbrev pub ◌>>=◌ : Outcome A → (A → Outcome B) → Outcome B
  ok a >>= f = f a
  err e >>= f = err e

  abbrev pub ◌>>◌ : Outcome A → Outcome B → Outcome B
  m >> n = m >>= λ _. n

-- `if !b { return nil, fmt.Errorf(…) }`.
abbrev pub ensure : Bool → Outcome (Unit {0})
ensure true = ok tt
ensure false = err rejected

-- A bound that the Go runtime checks.
abbrev pub in_bounds : Bool → Outcome (Unit {0})
in_bounds true = ok tt
in_bounds false = err panicked

abbrev pub some_or {ℓ} : {A : Type ℓ} → Fault → Option A → Outcome A
some_or e none = err e
some_or e (some a) = ok a

-- data[pos]
abbrev pub byte_at : Bytes → ℕ → Outcome ℕ
byte_at bytes pos = some_or panicked (get_elem? bytes pos)

-- data[from : from+count]
abbrev pub slice : Bytes → ℕ → ℕ → Outcome Bytes
slice bytes from count =
    if leb (from + count) (length bytes) then ok (take count (drop from bytes)) else err panicked

-- `binary.BigEndian` over all the bytes given, most significant first.
abbrev pub big_endian : ℕ → Bytes → ℕ
big_endian acc [] = acc
big_endian acc (b ∷ bs) = big_endian (acc * 256 + b) bs

-- Inversions, for proofs where the parts stay shut.
pub ensure-eq-ok {ℓ} :
    {B : Type ℓ} (b : Bool) (k : Outcome B) {v : B}
    → (ensure b >> k) ≡ ok v
    → (b ≡ true) × (k ≡ ok v)
ensure-eq-ok true k h = (refl, h)
ensure-eq-ok false k h = cc

pub >>=-eq-ok {ℓ κ} :
    {A : Type ℓ} {B : Type κ} (m : Outcome A) (f : A → Outcome B) {v : B}
    → (m >>= f) ≡ ok v
    → (a : A) × (m ≡ ok a) × (f a ≡ ok v)
>>=-eq-ok (ok a) f h = (a, refl, h)
>>=-eq-ok (err e) f h = cc

pub some_or-eq-ok {ℓ} :
    {A : Type ℓ} (e : Fault) (o : Option A) {a : A} → some_or e o ≡ ok a → o ≡ some a
some_or-eq-ok e none h = cc
some_or-eq-ok e (some a) h = ground arith
