-- ===== src/Hsm/Operations.antt =====
-- The four operations of the PKCS#11 backend, each on one session of the pool.
use go_r2ps_service.Base.{
  ℕ, zero, suc, String, Bool, true, false, not, ◌&&◌, ◌||◌, Option, none, some, List, [], ◌∷◌, ◌++◌,
  ◌==◌, string_eq, any, nat_beq, take, get_or, ltb, length, if◌then◌else◌,
}
use go_r2ps_service.Base.Exec.{Result, ok, err, Exec, ◌>>=◌, ◌>>◌, pure, fail, require, modify}
use go_r2ps_service.Base.Text.{utf8}
use go_r2ps_service.Base.Text.Hex
use go_r2ps_service.Protocol.{Bytes}
use go_r2ps_service.Crypto.Jwt.{Curve, p224, p256, p384, p521}
use go_r2ps_service.Hsm.{
  Pkcs11, Primitives, class, key_type, ec, generic_secret, public_key, secret_key, id, ec_params,
  token, verify, sign, sensitive, extractable, derive, value_len, key_id, value, ec_key_pair_gen,
  ecdsa, ecdh1_derive,
}
use go_r2ps_service.Hsm.Keys.{
  curve_oid, parse_curve, first_value, finally, raw_sig_to_asn1, find_private_key_by_id,
  read_ec_point, get_key_curve,
}

-- The sessions that are free, in the order of the channel, with the token.
pub record PoolState (T : Type 0) : Type 0 where
  pub free : List ℕ
  pub token : T

module _ {T : Type 0} where
  -- A call on the token.
  abbrev pub on_token : {A : Type 0} → Exec T String A → Exec (PoolState T) String A
  on_token m s = let r = m s.token in (r.0, record s { token = r.1 })

  -- `acquire`, at the moment its select fires: with no session free that is only by the context,
  -- and otherwise by either, as `cancelled` says.
  abbrev pub take_session : Bool → List ℕ → T → Result String ℕ × PoolState T
  take_session cancelled [] t = (err "acquire session", record { free = []; token = t })
  take_session cancelled (session ∷ rest) t =
      if cancelled
      then (err "acquire session", record { free = session ∷ rest; token = t })
      else (ok session, record { free = rest; token = t })

  unfoldable pub acquire : Bool → Exec (PoolState T) String ℕ
  acquire cancelled s = take_session cancelled s.free s.token

  -- `release`.
  unfoldable pub release : ℕ → PoolState T → PoolState T
  release session s = record s { free = s.free ++ session ∷ [] }

  -- How each operation starts, with `defer b.release(session)`.
  unfoldable pub with_session :
      {A : Type 0} → Bool → (ℕ → Exec T String A) → Exec (PoolState T) String A
  with_session cancelled body = do
    session ← acquire cancelled
    finally (release session) (on_token (body session))

-- (BitSize + 7) / 8.
abbrev pub field_bytes : Curve → ℕ
field_bytes p224 = 28
field_bytes p256 = 32
field_bytes p384 = 48
field_bytes p521 = 66

-- `[]byte(kid)` for a kid in hexadecimal digits.
abbrev pub kid_codes : Bytes → List ℕ
kid_codes hash = Hex.encode (take 16 hash)

module _ {T : Type 0} (lib : Pkcs11 T) (p : Primitives) where
  -- `GenerateECKey` on a session; `kid_bytes` are its 16 random bytes. The kid is given as the bytes
  -- of its text.
  unfoldable pub generate_on : Bytes → String → ℕ → Exec T String (Bytes × Bytes)
  generate_on kid_bytes curve_name session = do
    oid ← require (curve_oid curve_name) "unsupported curve"
    der ← require (p.marshal_oid oid) "marshal OID"
    (pub_handle, _) ←
        lib.generate_key_pair session ec_key_pair_gen
          (token true ∷ (verify true ∷ (ec_params der ∷ (id kid_bytes ∷ []))))
          (token true
            ∷ (sign true
                ∷ (sensitive true ∷ (extractable false ∷ (derive true ∷ (id kid_bytes ∷ []))))))
    pub_bytes ← read_ec_point lib p session pub_handle curve_name
    let kid = kid_codes (p.sha256 pub_bytes)
    lib.set_attribute_value session pub_handle (id kid ∷ [])
    priv_handle ← find_private_key_by_id lib p session kid_bytes
    lib.set_attribute_value session priv_handle (id kid ∷ [])
    pure (kid, pub_bytes)

  -- `Sign` on a session.
  unfoldable pub sign_on : String → Bytes → ℕ → Exec T String Bytes
  sign_on kid hash session = do
    priv_handle ← find_private_key_by_id lib p session (utf8 kid)
    lib.sign_init session ecdsa priv_handle
    raw_sig ← lib.sign session hash
    (λ t. (raw_sig_to_asn1 p raw_sig, t))

  abbrev pub decompressed : Curve → Option (ℕ × ℕ) → Option Bytes
  decompressed curve none = none
  decompressed curve (some point) = some (p.marshal_point curve point)

  -- The peer's key in uncompressed form.
  abbrev pub uncompressed : Curve → Bytes → Option Bytes
  uncompressed curve peer =
      if ltb 0 (length peer) && (nat_beq (get_or peer 0 0) 2 || nat_beq (get_or peer 0 0) 3)
      then decompressed curve (p.unmarshal_compressed curve peer)
      else some peer

  -- `ECDH` on a session.
  unfoldable pub ecdh_on : String → Bytes → ℕ → Exec T String Bytes
  ecdh_on kid peer session = do
    priv_handle ← find_private_key_by_id lib p session (utf8 kid)
    curve_name ← get_key_curve lib p session priv_handle
    curve ← require (parse_curve curve_name) "unsupported curve"
    point ← require (uncompressed curve peer) "decompress peer public key failed"
    secret_handle ← lib.derive_key session (ecdh1_derive point) priv_handle (
        class secret_key
        ∷ (key_type generic_secret
            ∷ (extractable true ∷ (sensitive false ∷ (value_len (field_bytes curve) ∷ [])))))
    values ← lib.get_attribute_value session secret_handle value
    secret ← require (first_value values) "empty derived secret"
    modify (lib.destroy_object session secret_handle)
    pure secret

  -- A key found by `ListKeys`: `none` where the source goes on to the next one.
  abbrev pub attempt : {A : Type 0} → Exec T String A → Exec T String (Option A)
  attempt m t = let r = m t in elim (r.0) [ ok a ↦ (ok (some a), r.1) | err e ↦ (ok none, r.1) ]

  abbrev pub is_wanted : List String → String → Bool
  is_wanted curves name = not (ltb 0 (length curves)) || any (λ c. c == name) curves

  abbrev pub only_wanted : List String → String → Exec T String (Unit {0})
  only_wanted curves name = if is_wanted curves name then pure tt else fail "other curve"

  abbrev pub first_id : List Bytes → Option Bytes
  first_id [] = none
  first_id (v ∷ _) = some v

  pub describe_key : List String → ℕ → ℕ → Exec T String (Bytes × (String × Bytes))
  describe_key curves session handle = do
    name ← get_key_curve lib p session handle
    only_wanted curves name
    pub_bytes ← read_ec_point lib p session handle name
    values ← lib.get_attribute_value session handle key_id
    kid ← require (first_id values) "no CKA_ID"
    pure (kid, (name, pub_bytes))

  abbrev pub in_front_of : {A : Type 0} → Option A → List A → List A
  in_front_of none ks = ks
  in_front_of (some k) ks = k ∷ ks

  pub describe_keys : List String → ℕ → List ℕ → Exec T String (List (Bytes × (String × Bytes)))
  unfolding describe_key
  describe_keys curves session [] = pure []
  describe_keys curves session (h ∷ hs) = do
    k ← attempt (describe_key curves session h)
    ks ← describe_keys curves session hs
    pure (in_front_of k ks)

  -- The loop that asks for 32 objects at a time until none is left; a round needs an object that is
  -- not yet listed, so one more round than the token has objects is enough.
  pub list_rounds : ℕ → List String → ℕ → Exec T String (List (Bytes × (String × Bytes)))
  unfolding describe_keys
  list_rounds zero curves session = fail "out of rounds"
  list_rounds (suc rounds) curves session = do
    handles ← lib.find_objects session 32
    elim handles [
      | [] ↦ pure []
      | h ∷ hs ↦ (do
        ks ← describe_keys curves session (h ∷ hs)
        more ← list_rounds rounds curves session
        pure (ks ++ more))
    ]

  -- `ListKeys` on a session.
  unfoldable pub list_on : ℕ → List String → ℕ → Exec T String (List (Bytes × (String × Bytes)))
  unfolding list_rounds
  list_on rounds curves session = do
    lib.find_objects_init session (class public_key ∷ (key_type ec ∷ []))
    finally (lib.find_objects_final session) (list_rounds rounds curves session)
