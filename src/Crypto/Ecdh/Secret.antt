-- ===== src/Crypto/Ecdh/Secret.antt =====
-- The form of a shared secret.
use go_r2ps_service.Base.{
  ℕ, ◌-◌, ◌^◌, ◌≤◌, ◌<◌, ◌≡◌, ◌∙◌, inl, inr, true, false, some, ◌++◌, arith, ltb, length,
  length-append, take, replicate, Bool-cases,
}
use go_r2ps_service.Base.Big.{
  big_int, big_bytes, big_int-big_bytes, length-big_bytes, big_int-zeros, length-zeros,
  length-replicate,
}
use go_r2ps_service.Protocol.{Bytes}
use go_r2ps_service.Crypto.Ecdh.{CurveMethods, byte_len, copied_to_end, ecdh_shared_secret}

module _ (c : CurveMethods) where
  abbrev behind_zeros : ℕ → Bytes → Bytes
  behind_zeros k bs = take (k - length bs) (replicate k 0) ++ bs

  copied :
      (k : ℕ) (bs : Bytes)
      → ltb (length bs) k ≡ true
      → copied_to_end c (replicate k 0) bs ≡ some (behind_zeros k bs)
  copied k bs p = rw (length-replicate k, longer)
    where
      longer : ltb k (length bs) ≡ false
      longer = ground (arith, p)

  length-behind_zeros : (k : ℕ) (bs : Bytes) → length bs ≤ k → length (behind_zeros k bs) ≡ k
  length-behind_zeros k bs p = omega (
    arith,
    length-append (take (k - length bs) (replicate k 0)) bs,
    length-zeros (k - length bs) k (omega arith),
  )

  -- If the multiplication gives an x below 256^byte_len, the shared secret is made without an error
  -- or a panic, has exactly byte_len bytes, and is the big-endian form of x.
  pub ecdh_shared_secret_lem :
      (d x : ℕ) (point : ℕ × ℕ)
      → c.scalar_mult point (big_bytes d) ≡ some x
      → x < 256 ^ byte_len c
      → (secret : Bytes) × (ecdh_shared_secret c d point ≡ some secret)
        × (length secret ≡ byte_len c)
        × (big_int 0 secret ≡ x)
  unfolding ecdh_shared_secret
  ecdh_shared_secret_lem d x point found p =
      elim (Bool-cases (ltb (length (big_bytes x)) (byte_len c))) [
        | inl short ↦ (
          behind_zeros (byte_len c) (big_bytes x),
          rw (found, short, copied (byte_len c) (big_bytes x) short),
          length-behind_zeros (byte_len c) (big_bytes x) (length-big_bytes (byte_len c) x p),
          big_int-zeros (byte_len c - length (big_bytes x)) (byte_len c) (big_bytes x)
              ∙ big_int-big_bytes x,
        )
        | inr long ↦ (
          big_bytes x,
          rw (found, long),
          ground (arith, length-big_bytes (byte_len c) x p, long),
          big_int-big_bytes x,
        )
      ]
