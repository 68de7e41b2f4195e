-- ===== src/Tests/Points.antt =====
-- A compressed point of a curve over the field of three elements.
use go_r2ps_service.Base.{
  ◌≡◌, ◌+◌, ◌*◌, ◌%◌, ◌<◌, ℕ, zero, suc, refl, ◌⊎◌, inl, inr, none, some, Option, arith, length,
}
use go_r2ps_service.Base.Big.{big_int}
use go_r2ps_service.Protocol.{Bytes}
use go_r2ps_service.Crypto.Ecdh.{
  CurveMethods, ecdh_shared_secret, marshal_compressed_public_key, decompress_public_key,
}
use go_r2ps_service.Crypto.Ecdh.RoundTrip.{IsCurve, IsOnCurve, decompress-marshal}
use go_r2ps_service.Crypto.Ecdh.Secret.{ecdh_shared_secret_lem}

abbrev root_of : ℕ → Option ℕ
root_of zero = some 0
root_of (suc zero) = some 1
root_of (suc (suc a)) = none

abbrev small : CurveMethods
small = record {
  p = 3;
  b = 1;
  bit_size = 2;
  scalar_mult = λ point d. none;
  unmarshal = λ b. none;
  mod_sqrt = root_of;
}

two_roots : (y z : ℕ) → y < 3 → z < 3 → y * y % 3 ≡ z * z % 3 → (y ≡ z) ⊎ (y + z ≡ 3)
two_roots zero zero p q h = inl refl
two_roots zero (suc zero) p q h = absurd (omega arith)
two_roots zero (suc (suc zero)) p q h = absurd (omega arith)
two_roots (suc zero) zero p q h = absurd (omega arith)
two_roots (suc zero) (suc zero) p q h = inl refl
two_roots (suc zero) (suc (suc zero)) p q h = inr refl
two_roots (suc (suc zero)) zero p q h = absurd (omega arith)
two_roots (suc (suc zero)) (suc zero) p q h = inr refl
two_roots (suc (suc zero)) (suc (suc zero)) p q h = inl refl
two_roots (suc (suc (suc y))) z p q h = absurd (omega arith)
two_roots y (suc (suc (suc z))) p q h = absurd (omega arith)

root :
    (y : ℕ) → y < 3 → (z : ℕ) × (root_of (y * y % 3) ≡ some z) × (z < 3) × (z * z % 3 ≡ y * y % 3)
root zero p = (0, refl, omega arith, refl)
root (suc zero) p = (1, refl, omega arith, refl)
root (suc (suc zero)) p = (1, refl, omega arith, refl)
root (suc (suc (suc y))) p = absurd (omega arith)

IsCurve-small : IsCurve small
IsCurve-small = record { odd = refl; fits = omega arith; two_roots = two_roots; root = root }

point : IsOnCurve small 0 2
point = record { reduced_x = omega arith; reduced_y = omega arith; equation = refl }

decompress-marshal_example :
    (bytes : Bytes) × (marshal_compressed_public_key small (0, 2) ≡ some bytes)
    × (decompress_public_key small bytes ≡ some (0, 2))
decompress-marshal_example = decompress-marshal small IsCurve-small 0 2 point

-- A multiplication that gives 5 for every point.
abbrev fifth : CurveMethods
fifth = record small { scalar_mult = λ point d. some 5 }

ecdh_shared_secret_lem_example :
    (secret : Bytes) × (ecdh_shared_secret fifth 1 (0, 2) ≡ some secret)
    × (length secret ≡ 1)
    × (big_int 0 secret ≡ 5)
ecdh_shared_secret_lem_example = ecdh_shared_secret_lem fifth 1 5 (0, 2) refl (omega arith)
