-- ===== src/Service/Handlers.antt =====
-- internal/service/handlers.go: the HSM handlers over a backend. Metrics are left out, and the texts
-- of errors that only say which call failed. Every handler draws on encoding/json, a parameter.
pub mod Signing
use go_r2ps_service.Base.{
  ℕ, ◌*◌, String, Bool, true, false, not, ◌&&◌, ◌||◌, Option, none, some, List, [], ◌∷◌, map,
  nat_beq, leb, length, if◌then◌else◌,
}
use go_r2ps_service.Base.Exec.{Result, ok, err, Exec, ◌>>=◌, ◌>>◌, pure, fail, require, guard}
use go_r2ps_service.Base.Int.{ℤ, unix}
use go_r2ps_service.Base.Text.{codes}
use go_r2ps_service.Base.Text.Base64
use go_r2ps_service.Protocol.{
  Bytes, type_sign_ecdsa, type_p256_generate, type_agree_ecdh, type_hsm_list_keys,
}
use go_r2ps_service.Store.{PublicKeyInfo, StoreError, Store}
use go_r2ps_service.Service.Dispatcher.{EcdsaSignRequest, Handler, mode_1fa, mode_2fa}

pub record KeyInfo : Type 0 where
  pub kid : String
  pub curve : String
  pub creation_time : ℤ
  pub pub_key : Bytes

-- internal/hsm/backend.go: what the handlers use of a backend.
pub record Backend (S : Type 0) : Type 0 where
  pub sign : String → Bytes → Exec S String Bytes
  pub generate_ec_key : String → Exec S String (String × Bytes)
  pub ecdh : String → Bytes → Exec S String Bytes
  pub list_keys : List String → S → Result String (List KeyInfo)

pub record EcdhRequest : Type 0 where
  pub kid : String
  pub public_key : String

pub record WireKeyInfo : Type 0 where
  pub kid : String
  pub curve_name : String
  pub creation_time : ℤ
  pub public_key : String

pub record HandlerCodec : Type 0 where
  pub parse_keygen : Bytes → Option String
  pub marshal_created_key : String → Bytes
  pub parse_ecdh : Bytes → Option EcdhRequest
  pub parse_list_keys : Bytes → Option (List String)
  pub marshal_key_info : List WireKeyInfo → Bytes

-- [a-zA-Z0-9_-]
abbrev pub is_kid_char : ℕ → Bool
is_kid_char c =
    (leb b'a' c && leb c b'z')
    || (leb b'A' c && leb c b'Z')
    || (leb b'0' c && leb c b'9')
    || nat_beq c b'_'
    || nat_beq c b'-'

pub all_kid_chars : List ℕ → Bool
all_kid_chars [] = true
all_kid_chars (c ∷ cs) = is_kid_char c && all_kid_chars cs

-- `validateKid`.
unfoldable pub validate_kid : String → Bool
unfolding all_kid_chars
validate_kid kid =
    leb 1 (length (codes kid)) && leb (length (codes kid)) 128 && all_kid_chars (codes kid)

abbrev pub is_signing_length : ℕ → Bool
is_signing_length n = nat_beq n 32 || nat_beq n 48 || nat_beq n 64

abbrev pub is_point_length : ℕ → Bool
is_point_length n =
    nat_beq n 33 || nat_beq n 65 || nat_beq n 49 || nat_beq n 97 || nat_beq n 67 || nat_beq n 133

module _ {S : Type 0} (parse_sign : Bytes → Option EcdsaSignRequest) (backend : Backend S) where
  -- `ECDSAHandler.Handle`.
  unfoldable pub sign_hash : Bytes → Exec S String Bytes
  sign_hash payload = do
    req ← require (parse_sign payload) "parse sign request"
    hash ← require (Base64.decode req.tbs_hash) "decode tbs_hash"
    guard (validate_kid req.kid) "invalid kid format"
    guard (is_signing_length (length hash)) "invalid hash length"
    backend.sign req.kid hash

  abbrev pub ecdsa_handler : Handler S
  ecdsa_handler = record {
    kind = type_sign_ecdsa;
    mode = mode_2fa;
    handle = λ now client_id payload. sign_hash payload;
  }

module _ {S : Type 0} (codec : HandlerCodec) (backend : Backend S) where
  -- `ECDHHandler.Handle`.
  unfoldable pub agree_secret : Bytes → Exec S String Bytes
  agree_secret payload = do
    req ← require (codec.parse_ecdh payload) "parse ECDH request"
    peer ← require (Base64.decode req.public_key) "decode public_key"
    guard (validate_kid req.kid) "invalid kid format"
    guard (is_point_length (length peer)) "invalid peer public key length"
    backend.ecdh req.kid peer

  abbrev pub ecdh_handler : Handler S
  ecdh_handler = record {
    kind = type_agree_ecdh;
    mode = mode_2fa;
    handle = λ now client_id payload. agree_secret payload;
  }

  -- The export of a new key, whose error the source drops.
  abbrev pub export_key : Option (Store S) → PublicKeyInfo → Exec S String (Unit {0})
  export_key none key s = (ok tt, s)
  export_key (some store) key s = (ok tt, (store.put_public_key key s).1)

  -- `ECKeygenHandler.Handle`.
  unfoldable pub generate_key : Option (Store S) → ℤ → String → Bytes → Exec S String Bytes
  generate_key key_store now client_id payload = do
    curve ← require (codec.parse_keygen payload) "parse keygen request"
    (kid, pub_key) ← backend.generate_ec_key curve
    export_key key_store (record {
      kid = kid;
      curve = curve;
      pub_key = pub_key;
      creation_time = unix now;
      client_id = client_id;
    })
    pure (codec.marshal_created_key curve)

  abbrev pub keygen_handler : Option (Store S) → Handler S
  keygen_handler key_store = record {
    kind = type_p256_generate;
    mode = mode_1fa;
    handle = generate_key key_store;
  }

  abbrev pub wire_key : KeyInfo → WireKeyInfo
  wire_key k = record {
    kid = k.kid;
    curve_name = k.curve;
    creation_time = k.creation_time;
    public_key = Base64.encode k.pub_key;
  }

  -- `ListKeysHandler.Handle`.
  unfoldable pub list_keys : Bytes → Exec S String Bytes
  list_keys payload = do
    curves ← require (codec.parse_list_keys payload) "parse list keys request"
    keys ← λ s. (backend.list_keys curves s, s)
    pure (codec.marshal_key_info (map wire_key keys))

  abbrev pub list_keys_handler : Handler S
  list_keys_handler = record {
    kind = type_hsm_list_keys;
    mode = mode_2fa;
    handle = λ now client_id payload. list_keys payload;
  }
