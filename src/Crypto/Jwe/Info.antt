-- ===== src/Crypto/Jwe/Info.antt =====
-- The info string of the key derivation tells its parts apart.
use go_r2ps_service.Base.{
  ℕ, ◌/◌, ◌%◌, ◌^◌, ◌<◌, ◌≡◌, refl, sym, ◌∙◌, String, [], ◌∷◌, ◌++◌, arith, length,
}
use mathlib.Core.List.{append_assoc, append-nil}
use go_r2ps_service.Base.Text.{utf8}
use go_r2ps_service.Protocol.{Bytes}
use go_r2ps_service.Crypto.Jwe.{put_uint32, append_len_prefixed, hkdf_info}

-- Texts of equal length with something behind them.
append-inj : (x y r t : Bytes) → length x ≡ length y → x ++ r ≡ y ++ t → (x ≡ y) × (r ≡ t)
append-inj [] [] r t len e = (refl, e)
append-inj [] (b ∷ y) r t len e = absurd (omega (arith, len))
append-inj (a ∷ x) [] r t len e = absurd (omega (arith, len))
append-inj (a ∷ x) (b ∷ y) r t len e =
    let heads : (a ≡ b) × (x ++ r ≡ y ++ t) = (cc e, cc e) in
    let (same, rest) = append-inj x y r t (omega (arith, len)) heads.1 in (rw (heads.0, same), rest)

uint32-inj :
    (m n : ℕ) (r t : Bytes)
    → m < 2 ^ 32
    → n < 2 ^ 32
    → put_uint32 m ++ r ≡ put_uint32 n ++ t
    → (m ≡ n) × (r ≡ t)
uint32-inj m n r t p q e =
    let parts : (m % 2 ^ 32 / 2 ^ 24 ≡ n % 2 ^ 32 / 2 ^ 24)
        × (m % 2 ^ 24 / 2 ^ 16 ≡ n % 2 ^ 24 / 2 ^ 16)
        × (m % 2 ^ 16 / 2 ^ 8 ≡ n % 2 ^ 16 / 2 ^ 8)
        × (m % 2 ^ 8 ≡ n % 2 ^ 8)
        × (r ≡ t) =
      (cc e, cc e, cc e, cc e, cc e) in
    (omega (arith, parts.0, parts.1, parts.2, parts.3), parts.4)

prefixed : Bytes → Bytes → Bytes
prefixed x r = put_uint32 (length x) ++ (x ++ r)

prefixed-inj :
    (x y r t : Bytes)
    → length x < 2 ^ 32
    → length y < 2 ^ 32
    → prefixed x r ≡ prefixed y t
    → (x ≡ y) × (r ≡ t)
unfolding prefixed
prefixed-inj x y r t p q e =
    let (len, rest) = uint32-inj (length x) (length y) (x ++ r) (y ++ t) p q e in
    append-inj x y r t len rest

append_len_prefixed-append :
    (buf x r : Bytes) → append_len_prefixed buf x ++ r ≡ buf ++ prefixed x r
unfolding append_len_prefixed prefixed
append_len_prefixed-append buf x r =
    append_assoc (buf ++ put_uint32 (length x)) x r
    ∙ append_assoc buf (put_uint32 (length x)) (x ++ r)

info_prefixed :
    (dst direction session_id : String)
    → hkdf_info dst direction session_id
      ≡ prefixed (utf8 dst) (prefixed (utf8 direction) (prefixed (utf8 session_id) []))
unfolding hkdf_info
info_prefixed dst direction session_id =
    let one = append_len_prefixed [] (utf8 dst) in
    let two = append_len_prefixed one (utf8 direction) in
    sym (append-nil (append_len_prefixed two (utf8 session_id)))
    ∙ append_len_prefixed-append two (utf8 session_id) []
    ∙ append_len_prefixed-append one (utf8 direction) (prefixed (utf8 session_id) [])
    ∙ append_len_prefixed-append [] (utf8 dst)
        (prefixed (utf8 direction) (prefixed (utf8 session_id) []))

abbrev pub IsShort : String → Type 0
IsShort s = length (utf8 s) < 2 ^ 32

-- Two derivations of key-encryption keys have the same info string only if they agree, byte for byte,
-- on the domain, the direction and the session, as long as none of these has 2^32 bytes or more.
pub hkdf_info-inj :
    (dst direction session_id dst' direction' session_id' : String)
    → IsShort dst
    → IsShort direction
    → IsShort session_id
    → IsShort dst'
    → IsShort direction'
    → IsShort session_id'
    → hkdf_info dst direction session_id ≡ hkdf_info dst' direction' session_id'
    → (utf8 dst ≡ utf8 dst')
      × (utf8 direction ≡ utf8 direction')
      × (utf8 session_id ≡ utf8 session_id')
hkdf_info-inj dst direction session_id dst' direction' session_id' a b c a' b' c' e =
    let (first, e1) = prefixed-inj _ _ _ _ a a' (
      sym (info_prefixed dst direction session_id)
      ∙ e
      ∙ info_prefixed dst' direction' session_id') in
    let (second, e2) = prefixed-inj _ _ _ _ b b' e1 in
    let (third, _) = prefixed-inj _ _ _ _ c c' e2 in (first, second, third)
