-- ===== src/Hsm/Keys.antt =====
-- The helpers of the PKCS#11 backend: curves, object identifiers, points, and the form of a
-- signature.
pub mod Signature
use go_r2ps_service.Base.{
  ℕ, zero, suc, ◌+◌, ◌*◌, ◌/◌, ◌%◌, String, Bool, true, false, Option, none, some, List, [], ◌∷◌,
  ◌==◌, string_eq, bytes_eq, ltb, nat_beq, ◌&&◌, length, take, drop, get_or, if◌then◌else◌,
}
use go_r2ps_service.Base.Big.{big_int}
use go_r2ps_service.Base.Exec.{
  Result, ok, err, Exec, ◌>>=◌, ◌>>◌, pure, fail, require, guard, modify,
}
use go_r2ps_service.Protocol.{Bytes}
use go_r2ps_service.Crypto.Jwt.{Curve, p256, p384, p521}
use go_r2ps_service.Hsm.{
  Pkcs11, Primitives, Attribute, class, private_key, id, AttributeKind, ec_point, curve_params,
}

abbrev pub oid_p256 : List ℕ
oid_p256 = 1 ∷ (2 ∷ (840 ∷ (10045 ∷ (3 ∷ (1 ∷ (7 ∷ []))))))

abbrev pub oid_p384 : List ℕ
oid_p384 = 1 ∷ (3 ∷ (132 ∷ (0 ∷ (34 ∷ []))))

abbrev pub oid_p521 : List ℕ
oid_p521 = 1 ∷ (3 ∷ (132 ∷ (0 ∷ (35 ∷ []))))

-- `curveOID`.
unfoldable pub curve_oid : String → Option (List ℕ)
curve_oid name =
    if name == "P-256"
    then some oid_p256
    else if name == "P-384"
    then some oid_p384
    else if name == "P-521"
    then some oid_p521
    else none

-- `parseCurve`.
unfoldable pub parse_curve : String → Option Curve
parse_curve name =
    if name == "P-256"
    then some p256
    else if name == "P-384"
    then some p384
    else if name == "P-521"
    then some p521
    else none

abbrev pub name_of_oid : List ℕ → Option String
name_of_oid oid =
    if oid == oid_p256
    then some "P-256"
    else if oid == oid_p384
    then some "P-384"
    else if oid == oid_p521
    then some "P-521"
    else none

abbrev pub name_of_parsed : Option (List ℕ) → Option String
name_of_parsed none = none
name_of_parsed (some oid) = name_of_oid oid

abbrev pub or_asn1_error : Option Bytes → Result String Bytes
or_asn1_error none = err "marshal signature"
or_asn1_error (some der) = ok der

-- The first value of an attribute; one that is missing or empty is an error.
abbrev pub first_value : List Bytes → Option Bytes
first_value [] = none
first_value ([] ∷ _) = none
first_value ((b ∷ bs) ∷ _) = some (b ∷ bs)

abbrev pub unwrapped : Bytes → Option (Bytes × Bytes) → Bytes
unwrapped point none = point
unwrapped point (some (raw, [])) = raw
unwrapped point (some (raw, _ ∷ _)) = point

-- A deferred call, which is made however the body ends.
abbrev pub finally : {S A : Type 0} → (S → S) → Exec S String A → Exec S String A
finally cleanup body s = let r = body s in (r.0, cleanup r.1)

module _ (p : Primitives) where
  -- `oidToCurveName`.
  unfoldable pub oid_to_curve_name : Bytes → Option String
  oid_to_curve_name der = name_of_parsed (p.unmarshal_oid der)

  -- `rawSigToASN1`.
  unfoldable pub raw_sig_to_asn1 : Bytes → Result String Bytes
  raw_sig_to_asn1 raw =
      if ltb 2 (length raw) && nat_beq (get_or raw 0 0) 0x30
      then ok raw
      else if nat_beq (length raw % 2) 0
      then or_asn1_error (
          p.marshal_signature (big_int 0 (take (length raw / 2) raw))
            (big_int 0 (drop (length raw / 2) raw)))
      else err "invalid raw signature length"

module _ {T : Type 0} (lib : Pkcs11 T) (p : Primitives) where
  abbrev pub first_handle : List ℕ → Option ℕ
  first_handle [] = none
  first_handle (h ∷ _) = some h

  -- `findPrivateKeyByID`.
  unfoldable pub find_private_key_by_id : ℕ → Bytes → Exec T String ℕ
  find_private_key_by_id session kid = do
    lib.find_objects_init session (class private_key ∷ (id kid ∷ []))
    finally (lib.find_objects_final session)
        (do handles ← lib.find_objects session 1; require (first_handle handles) "key not found")

  -- `readECPoint`.
  unfoldable pub read_ec_point : ℕ → ℕ → String → Exec T String Bytes
  read_ec_point session handle curve_name = do
    values ← lib.get_attribute_value session handle ec_point
    wrapped ← require (first_value values) "empty EC point"
    curve ← require (parse_curve curve_name) "unsupported curve"
    point ←
        require (p.unmarshal_point curve (unwrapped wrapped (p.unmarshal_octets wrapped)))
          "invalid uncompressed EC point"
    pure (p.marshal_compressed curve point)

  -- `getKeyCurve`.
  unfoldable pub get_key_curve : ℕ → ℕ → Exec T String String
  get_key_curve session handle = do
    values ← lib.get_attribute_value session handle curve_params
    der ← require (first_value values) "empty EC params"
    require (oid_to_curve_name p der) "unknown curve OID"
