-- ===== src/Hsm/Keys/Signature.antt =====
-- The form in which a signature leaves the backend.
use go_r2ps_service.Base.{
  ◌/◌, ◌%◌, ◌≡◌, refl, ap, ◌⊎◌, inl, inr, Bool, true, false, [], ◌∷◌, ◌++◌, arith, ltb, nat_beq,
  ◌&&◌, length, length-append, take, drop, get_or, Bool-cases,
}
use go_r2ps_service.Base.Big.{big_int}
use go_r2ps_service.Base.Exec.{ok}
use go_r2ps_service.Protocol.{Bytes}
use go_r2ps_service.Hsm.{Primitives}
use go_r2ps_service.Hsm.Keys.{or_asn1_error, raw_sig_to_asn1}

take-append : (r s : Bytes) → take (length r) (r ++ s) ≡ r
take-append [] s = refl
take-append (b ∷ r) s = ap (λ bs. b ∷ bs) (take-append r s)

drop-append : (r s : Bytes) → drop (length r) (r ++ s) ≡ s
drop-append [] s = refl
drop-append (b ∷ r) s = drop-append r s

-- What is taken for DER.
abbrev pub looks_like_der : Bytes → Bool
looks_like_der raw = ltb 2 (length raw) && nat_beq (get_or raw 0 0) 0x30

halves :
    (r s : Bytes)
    → length r ≡ length s
    → (length (r ++ s) % 2 ≡ 0) × (length (r ++ s) / 2 ≡ length r)
halves r s same = (omega (arith, length-append r s, same), omega (arith, length-append r s, same))

-- A raw signature of two numbers of equal length is converted to the DER of just these numbers,
-- unless it has more than two bytes and its first one is 0x30: then it is given out as it is.
pub raw_sig_to_asn1-append :
    (p : Primitives) (r s : Bytes)
    → length r ≡ length s
    → ((looks_like_der (r ++ s) ≡ true) × (raw_sig_to_asn1 p (r ++ s) ≡ ok (r ++ s)))
      ⊎ ((looks_like_der (r ++ s) ≡ false)
          × (raw_sig_to_asn1 p (r ++ s)
              ≡ or_asn1_error (p.marshal_signature (big_int 0 r) (big_int 0 s))))
unfolding raw_sig_to_asn1
raw_sig_to_asn1-append p r s same = elim (Bool-cases (looks_like_der (r ++ s))) [
  | inl der ↦ inl (der, rw der)
  | inr raw ↦
      let (even, half) = halves r s same in
      inr (raw, rw (raw, even, half, take-append r s, drop-append r s))
]
