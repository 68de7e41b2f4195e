-- ===== src/WebAuthn/Cbor/Depth.antt =====
-- The recursion of `skipCBORValue` ends: its bound on the depth is never reached.
use go_r2ps_service.Base.{
  Option-cases, ◌==◌, bytes_eq, ℕ, zero, suc, ◌+◌, ◌*◌, ◌≤◌, ◌<◌, inl, inr, Bool, true, false,
  arith, leb, ltb, nat_beq, length, Bool-cases, if◌then◌else◌, get_elem?,
}
use go_r2ps_service.Base.Exec.{ok, err}
use go_r2ps_service.Base.Text.{codes}
use go_r2ps_service.Protocol.{Bytes}
use go_r2ps_service.WebAuthn.Outcome.{
  Outcome, rejected, panicked, exhausted, ◌>>=◌, ensure, byte_at, slice,
}
use go_r2ps_service.WebAuthn.Cbor.{
  major, additional, header_length, repeat, skip_body, skip_value, skip_cbor_value,
  auth_data_length, auth_data_value, key_length, find_auth_data, extract_auth_data,
}

-- A run that ends by itself: with a value for which `Q` holds, an error or a panic.
abbrev pub Ends {ℓ} : {A : Type ℓ} → (A → Type 0) → Outcome A → Type 0
Ends Q (ok a) = Q a
Ends Q (err rejected) = Unit
Ends Q (err panicked) = Unit
Ends Q (err exhausted) = ⊥

Ends->>= :
    {A B : Type 0} (Q : A → Type 0) (R : B → Type 0) (m : Outcome A) (f : A → Outcome B)
    → Ends Q m
    → ((a : A) → Q a → Ends R (f a))
    → Ends R (m >>= f)
Ends->>= Q R (ok a) f h k = k a h
Ends->>= Q R (err rejected) f h k = tt
Ends->>= Q R (err panicked) f h k = tt
Ends->>= Q R (err exhausted) f h k = h

abbrev Always : {A : Type 0} → A → Type 0
Always a = Unit

byte_at-Ends : (bytes : Bytes) (at : ℕ) → Ends Always (byte_at bytes at)
byte_at-Ends bytes at = elim (Option-cases (get_elem? bytes at)) [
  | inl past ↦ rw past tt
  | inr (b, found) ↦ rw found tt
]

slice-Ends : (bytes : Bytes) (at count : ℕ) → Ends Always (slice bytes at count)
slice-Ends bytes at count = elim (Bool-cases (leb (at + count) (length bytes))) [
  | inl fits ↦ rw fits tt
  | inr short ↦ rw short tt
]

ensure-Ends : (b : Bool) → Ends Always (ensure b)
ensure-Ends true = tt
ensure-Ends false = tt

-- An if ends if both its branches do.
if-Ends :
    {A : Type 0} (Q : A → Type 0) (b : Bool) (m n : Outcome A)
    → Ends Q m
    → Ends Q n
    → Ends Q (if b then m else n)
if-Ends Q true m n p q = p
if-Ends Q false m n p q = q

abbrev Behind : ℕ → ℕ × ℕ → Type 0
Behind at r = at ≤ r.1

header_length-Ends : (bytes : Bytes) (a at : ℕ) → Ends (Behind at) (header_length bytes a at)
unfolding header_length
header_length-Ends bytes a at = if-Ends _ (ltb a 24) _ _ (omega arith) (
    if-Ends _ (nat_beq a 24) _ _
      (Ends->>= _ _ (byte_at bytes at) _ (byte_at-Ends bytes at) λ n _. omega arith)
      (if-Ends _ (nat_beq a 25) _ _
        (Ends->>= _ _ (slice bytes at 2) _ (slice-Ends bytes at 2) λ v _. omega arith)
        (if-Ends _ (nat_beq a 26) _ _
          (Ends->>= _ _ (slice bytes at 4) _ (slice-Ends bytes at 4) λ v _. omega arith)
          (omega arith))))

-- A run from `at` gives a position that is not before it.
abbrev pub Proceeds : ℕ → Outcome ℕ → Type 0
Proceeds at = Ends (λ r. at ≤ r)

Proceeds-le : {lo at : ℕ} (m : Outcome ℕ) → lo ≤ at → Proceeds at m → Proceeds lo m
Proceeds-le (ok r) le p = omega (arith, le, p)
Proceeds-le (err rejected) le p = tt
Proceeds-le (err panicked) le p = tt
Proceeds-le (err exhausted) le p = p

repeat-Proceeds :
    (skip : ℕ → Outcome ℕ) (lo n at : ℕ)
    → ((from : ℕ) → lo ≤ from → Proceeds from (skip from))
    → lo ≤ at
    → Proceeds at (repeat skip n at)
repeat-Proceeds skip lo zero at p le = omega arith
repeat-Proceeds skip lo (suc n) at p le = Ends->>= _ _ (skip at) _ (p at le) λ at' le'.
    Proceeds-le (repeat skip n at') le' (repeat-Proceeds skip lo n at' p (omega (arith, le, le')))

skip_body-Proceeds :
    (skip : ℕ → Outcome ℕ) (lo m n at : ℕ)
    → ((from : ℕ) → lo ≤ from → Proceeds from (skip from))
    → lo ≤ at
    → Proceeds at (skip_body skip m n at)
skip_body-Proceeds skip lo m n at p le = if-Ends _ (leb m 1) _ _ (omega arith) (
    if-Ends _ (leb m 3) _ _ (omega arith) (
      if-Ends _ (nat_beq m 4) _ _ (repeat-Proceeds skip lo n at p le)
        (if-Ends _ (nat_beq m 5) _ _ (repeat-Proceeds skip lo (2 * n) at p le) (omega arith))))

-- A depth that reaches past the end of the input is enough.
skip_value-Proceeds :
    (depth : ℕ) (bytes : Bytes) (at : ℕ)
    → 0 < depth
    → length bytes < depth + at
    → Proceeds at (skip_value depth bytes at)
unfolding skip_value
skip_value-Proceeds zero bytes at positive enough = absurd (omega (arith, positive))
skip_value-Proceeds (suc depth) bytes at positive enough =
    elim (Bool-cases (leb (length bytes) at)) [
      | inl past ↦ rw past (omega arith)
      | inr inside ↦ rw inside (
          Ends->>= _ _ (byte_at bytes at) _ (byte_at-Ends bytes at) λ b _.
            Ends->>= _ _ (header_length bytes (additional b) (at + 1)) _
              (header_length-Ends bytes (additional b) (at + 1))
              λ r le. Proceeds-le _ (omega (arith, le)) (
                skip_body-Proceeds (skip_value depth bytes) (at + 1) (major b) r.0 r.1
                  (λ from further.
                    skip_value-Proceeds depth bytes from (ground (arith, enough, inside))
                      (omega (arith, enough, further)))
                  le))
    ]

-- `skipCBORValue` always ends by itself, from any position in any input: with a position that is not
-- before the one it started at, or with a panic. It never runs out of the depth that the model
-- bounds its recursion by.
pub skip_cbor_value-Proceeds : (bytes : Bytes) (at : ℕ) → Proceeds at (skip_cbor_value bytes at)
unfolding skip_cbor_value
skip_cbor_value-Proceeds bytes at =
    skip_value-Proceeds (suc (length bytes)) bytes at (omega arith) (omega arith)

Ends-Always : {A : Type 0} (Q : A → Type 0) (m : Outcome A) → Ends Q m → Ends Always m
Ends-Always Q (ok a) h = tt
Ends-Always Q (err rejected) h = tt
Ends-Always Q (err panicked) h = tt
Ends-Always Q (err exhausted) h = h

auth_data_length-Ends : (bytes : Bytes) (a at : ℕ) → Ends Always (auth_data_length bytes a at)
unfolding auth_data_length
auth_data_length-Ends bytes a at =
    if-Ends _ (leb 27 a) _ _ tt
      (Ends-Always _ (header_length bytes a at) (header_length-Ends bytes a at))

auth_data_value-Ends : (bytes : Bytes) (at : ℕ) → Ends Always (auth_data_value bytes at)
unfolding auth_data_value
auth_data_value-Ends bytes at = Ends->>= _ _ (byte_at bytes at) _ (byte_at-Ends bytes at) λ b _.
    Ends->>= _ _ (ensure (nat_beq (major b) 2)) _ (ensure-Ends _) λ _ _.
      Ends->>= _ _ (auth_data_length bytes (additional b) (at + 1)) _
        (auth_data_length-Ends bytes (additional b) (at + 1))
        λ r _.
          Ends->>= _ _ (ensure (leb (r.1 + r.0) (length bytes))) _ (ensure-Ends _)
            λ _ _. slice-Ends bytes r.1 r.0

key_length-Ends : (bytes : Bytes) (a at : ℕ) → Ends Always (key_length bytes a at)
unfolding key_length
key_length-Ends bytes a at =
    if-Ends _ (nat_beq a 24) _ _
      (Ends->>= _ _ (byte_at bytes at) _ (byte_at-Ends bytes at) λ n _. tt) tt

find_auth_data-Ends : (bytes : Bytes) (pairs at : ℕ) → Ends Always (find_auth_data bytes pairs at)
unfolding find_auth_data
find_auth_data-Ends bytes zero at = tt
find_auth_data-Ends bytes (suc pairs) at =
    if-Ends _ (ltb at (length bytes)) _ _
      (Ends->>= _ _ (byte_at bytes at) _ (byte_at-Ends bytes at) λ b _.
        if-Ends _ (nat_beq (major b) 3) _ _
          (Ends->>= _ _ (key_length bytes (additional b) (at + 1)) _
            (key_length-Ends bytes (additional b) (at + 1))
            λ r _. Ends->>= _ _ (ensure (leb (r.1 + r.0) (length bytes))) _ (ensure-Ends _) λ _ _.
              Ends->>= _ _ (slice bytes r.1 r.0) _ (slice-Ends bytes r.1 r.0) λ key _.
                if-Ends _ (key == codes "authData") _ _ (auth_data_value-Ends bytes (r.1 + r.0)) (
                  Ends->>= _ _ (skip_cbor_value bytes (r.1 + r.0)) _
                    (skip_cbor_value-Proceeds bytes _)
                    λ at' _. find_auth_data-Ends bytes pairs at'))
          (Ends->>= _ _ (skip_cbor_value bytes at) _ (skip_cbor_value-Proceeds bytes at) λ behind _.
            Ends->>= _ _ (skip_cbor_value bytes behind) _ (skip_cbor_value-Proceeds bytes behind)
              λ at' _. find_auth_data-Ends bytes pairs at'))
      tt

-- `extractAuthDataFromAttestation` ends by itself on every input: with the data, an error or a panic.
pub extract_auth_data-Ends : (bytes : Bytes) → Ends Always (extract_auth_data bytes)
unfolding extract_auth_data
extract_auth_data-Ends bytes = Ends->>= _ _ (ensure (leb 3 (length bytes))) _ (ensure-Ends _) λ _ _.
    Ends->>= _ _ (byte_at bytes 0) _ (byte_at-Ends bytes 0) λ b _.
      Ends->>= _ _ (ensure (nat_beq (major b) 5)) _ (ensure-Ends _) λ _ _.
        if-Ends _ (nat_beq (additional b) 24) _ _
          (Ends->>= _ _ (byte_at bytes 1) _ (byte_at-Ends bytes 1)
            λ n _. find_auth_data-Ends bytes n 2)
          (find_auth_data-Ends bytes (additional b) 1)
