-- ===== src/Tests/Backends.antt =====
-- The mode text, the key derivation, the CBOR reader and the PKCS#11 backend at small inputs.
use go_r2ps_service.Base.{
  ℕ, ◌+◌, ◌≡◌, ◌≢◌, ◌⊎◌, refl, true, false, none, some, [], ◌∷◌, ◌++◌, any, arith, bytes_beq,
}
use go_r2ps_service.Base.Big.{big_int}
use go_r2ps_service.Base.Exec.{ok}
use go_r2ps_service.Base.Text.{codes, utf8}
use go_r2ps_service.Base.Text.Split.{split, trim_space}
use go_r2ps_service.Protocol.{Bytes}
use go_r2ps_service.WebAuthn.Cbor.{skip_cbor_value}
use go_r2ps_service.WebAuthn.Cbor.Depth.{Proceeds, skip_cbor_value-Proceeds}
use go_r2ps_service.Crypto.Jwe.Info.{IsShort, hkdf_info-inj}
use go_r2ps_service.Modes.{Role, wscd, wsca, has, parse_parts, parse_roles}
use go_r2ps_service.Modes.Laws.{names, parse_roles-has}
use go_r2ps_service.Hsm.{Primitives}
use go_r2ps_service.Hsm.Keys.{or_asn1_error, raw_sig_to_asn1}
use go_r2ps_service.Hsm.Keys.Signature.{looks_like_der, raw_sig_to_asn1-append}
use go_r2ps_service.Hsm.Operations.{PoolState, acquire}
use go_r2ps_service.Hsm.Pool.Sessions.{Running, occurrences, Running-occurrences}

-- An array of one array of one number.
abbrev nested : Bytes
nested = 0x81 ∷ (0x81 ∷ (0x05 ∷ []))

skip_cbor_value-Proceeds_example : Proceeds 0 (skip_cbor_value nested 0)
skip_cbor_value-Proceeds_example = skip_cbor_value-Proceeds nested 0

mode_parsed : parse_roles " wscd, wsca,wscd" ≡ ok (wscd ∷ (wsca ∷ []))
unfolding parse_roles parse_parts split trim_space bytes_beq
mode_parsed = refl

parse_roles-has_example :
    ((wscd ∷ (wsca ∷ [])) ≢ [])
    × ((r : Role)
        → has r (wscd ∷ (wsca ∷ []))
          ≡ any (names r) (split b',' (trim_space (codes " wscd, wsca,wscd"))))
parse_roles-has_example = parse_roles-has " wscd, wsca,wscd" (wscd ∷ (wsca ∷ [])) mode_parsed

IsShort-s : IsShort "s"
unfolding utf8
IsShort-s = omega arith

IsShort-c2s : IsShort "c2s"
unfolding utf8
IsShort-c2s = omega arith

IsShort-kek : IsShort "R2PS-2FA-KEK-1.0"
unfolding utf8
IsShort-kek = omega arith

hkdf_info-inj_example :
    (utf8 "R2PS-2FA-KEK-1.0" ≡ utf8 "R2PS-2FA-KEK-1.0")
    × (utf8 "c2s" ≡ utf8 "c2s")
    × (utf8 "s" ≡ utf8 "s")
hkdf_info-inj_example =
    hkdf_info-inj "R2PS-2FA-KEK-1.0" "c2s" "s" "R2PS-2FA-KEK-1.0" "c2s" "s" IsShort-kek IsShort-c2s
      IsShort-s IsShort-kek IsShort-c2s IsShort-s refl

abbrev pool : PoolState ℕ
pool = record { free = 7 ∷ (8 ∷ []); token = 0 }

taken : (acquire false pool).0 ≡ ok 7
unfolding acquire
taken = refl

one_taken : Running (7 ∷ (8 ∷ [])) (acquire false pool).1 (7 ∷ [])
one_taken = Running.acquired false pool [] 7 (Running.start 0) taken

Running-occurrences_example :
    occurrences 7 (acquire false pool).1.free + occurrences 7 (7 ∷ [])
    ≡ occurrences 7 (7 ∷ (8 ∷ []))
Running-occurrences_example =
    Running-occurrences (7 ∷ (8 ∷ [])) (acquire false pool).1 (7 ∷ []) one_taken 7

abbrev primitives : Primitives
primitives = record {
  marshal_oid = λ o. none;
  unmarshal_oid = λ b. none;
  unmarshal_octets = λ b. none;
  marshal_signature = λ r s. some (0x30 ∷ (r ∷ (s ∷ [])));
  unmarshal_point = λ c b. none;
  unmarshal_compressed = λ c b. none;
  marshal_point = λ c q. [];
  marshal_compressed = λ c q. [];
  sha256 = λ b. b;
}

abbrev half_r : Bytes
half_r = 1 ∷ (2 ∷ [])

abbrev half_s : Bytes
half_s = 3 ∷ (4 ∷ [])

raw_sig_to_asn1-append_example :
    ((looks_like_der (half_r ++ half_s) ≡ true)
      × (raw_sig_to_asn1 primitives (half_r ++ half_s) ≡ ok (half_r ++ half_s)))
    ⊎ ((looks_like_der (half_r ++ half_s) ≡ false)
        × (raw_sig_to_asn1 primitives (half_r ++ half_s)
            ≡ or_asn1_error (primitives.marshal_signature (big_int 0 half_r) (big_int 0 half_s))))
raw_sig_to_asn1-append_example = raw_sig_to_asn1-append primitives half_r half_s refl
