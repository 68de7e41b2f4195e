-- ===== src/Crypto/Jwe.antt =====
-- internal/crypto/jwe.go over go-jose and HKDF, which are parameters: `P` is the type of public
-- keys, `Q` that of private keys, `J` that of parsed objects.
pub mod Info
use Prim.Native.Char.{code}
use go_r2ps_service.Base.{
  ℕ, ◌+◌, ◌/◌, ◌%◌, ◌^◌, String, Option, none, some, List, [], ◌∷◌, ◌++◌, nat_beq, length,
  if◌then◌else◌,
}
use go_r2ps_service.Base.Text.{utf8}
use go_r2ps_service.Base.Text.Base64.{raw_encode}
use go_r2ps_service.Protocol.{Bytes}

pub data KeyAlgorithm : Type 0 where
  ecdh_es ecdh_es_a256kw ecdh_es_a128kw a256kw direct : KeyAlgorithm

pub data ContentEncryption : Type 0 where
  a256gcm a128gcm : ContentEncryption

pub data EncryptionKey (P : Type 0) : Type 0 where
  to_public : P → EncryptionKey P
  symmetric : Bytes → EncryptionKey P

pub data DecryptionKey (Q : Type 0) : Type 0 where
  with_private : Q → DecryptionKey Q
  with_symmetric : Bytes → DecryptionKey Q

-- `jose.EncrypterOptions`: the type, the content type, and further headers in order.
pub record EncrypterOptions : Type 0 where
  pub typ : String
  pub content_type : String
  pub headers : List (String × String)

pub record JweLibrary (P Q J : Type 0) : Type 0 where
  pub encrypt :
      KeyAlgorithm → ContentEncryption → EncryptionKey P → EncrypterOptions → Bytes → Option String
  pub parse_encrypted : List KeyAlgorithm → List ContentEncryption → String → Option J
  pub decrypt : J → DecryptionKey Q → Option Bytes
  pub hkdf_sha256 : Bytes → Bytes → Option Bytes

-- The text before the first dot, if there is one.
unfoldable pub before_dot : String → Option String
before_dot String.[] = none
before_dot (String.◌∷◌ c cs) =
    let rest = before_dot cs in
    if nat_beq (code c) b'.'
    then some ""
    else elim rest [ none ↦ none | some first ↦ some (String.◌∷◌ c first) ]

abbrev pub hash_of : (Bytes → Bytes) → Option String → Option String
hash_of sha256 none = none
hash_of sha256 (some header) = some (raw_encode (sha256 (utf8 header)))

-- `JWEHash`.
unfoldable pub jwe_hash : (Bytes → Bytes) → String → Option String
jwe_hash sha256 compact = hash_of sha256 (before_dot compact)

-- `binary.BigEndian.PutUint32` of a length, which is cut to 32 bits.
abbrev pub put_uint32 : ℕ → Bytes
put_uint32 n = n % 2 ^ 32 / 2 ^ 24 ∷ (n % 2 ^ 24 / 2 ^ 16 ∷ (n % 2 ^ 16 / 2 ^ 8 ∷ (n % 2 ^ 8 ∷ [])))

-- `appendLenPrefixed`.
unfoldable pub append_len_prefixed : Bytes → Bytes → Bytes
append_len_prefixed buf bytes = (buf ++ put_uint32 (length bytes)) ++ bytes

-- `hkdfInfo`.
unfoldable pub hkdf_info : String → String → String → Bytes
hkdf_info dst direction session_id =
    append_len_prefixed (append_len_prefixed (append_len_prefixed [] (utf8 dst)) (utf8 direction))
      (utf8 session_id)

module _ {P Q J : Type 0} (lib : JweLibrary P Q J) where
  abbrev pub decrypt_parsed : DecryptionKey Q → Option J → Option Bytes
  decrypt_parsed key none = none
  decrypt_parsed key (some jwe) = lib.decrypt jwe key

  -- `EncryptJWE1FA`.
  unfoldable pub encrypt_jwe_1fa : Bytes → P → String → String → String → Option String
  encrypt_jwe_1fa plaintext recipient kid apu apv =
      lib.encrypt ecdh_es a256gcm (to_public recipient)
        (record {
          typ = "r2ps-1fa";
          content_type = "JWT";
          headers = ("kid", kid) ∷ (("apu", apu) ∷ (("apv", apv) ∷ []));
        })
        plaintext

  -- `DecryptJWE1FA`.
  unfoldable pub decrypt_jwe_1fa : String → Q → Option Bytes
  decrypt_jwe_1fa compact key =
      decrypt_parsed (with_private key) (lib.parse_encrypted (ecdh_es ∷ []) (a256gcm ∷ []) compact)

  -- `Derive2FAKEK`.
  unfoldable pub derive_2fa_kek : Bytes → String → String → Option Bytes
  derive_2fa_kek session_key direction session_id =
      lib.hkdf_sha256 session_key (hkdf_info "R2PS-2FA-KEK-1.0" direction session_id)

  abbrev pub encrypt_under : Bytes → String → Option Bytes → Option String
  encrypt_under plaintext session_id none = none
  encrypt_under plaintext session_id (some kek) =
      lib.encrypt a256kw a256gcm (symmetric kek)
        (record { typ = "r2ps-2fa"; content_type = "JWT"; headers = ("kid", session_id) ∷ [] })
        plaintext

  -- `EncryptJWE2FA`.
  unfoldable pub encrypt_jwe_2fa : Bytes → Bytes → String → String → Option String
  encrypt_jwe_2fa plaintext session_key session_id direction =
      encrypt_under plaintext session_id (derive_2fa_kek session_key direction session_id)

  abbrev pub decrypt_under : String → Option Bytes → Option Bytes
  decrypt_under compact none = none
  decrypt_under compact (some kek) =
      decrypt_parsed (with_symmetric kek) (lib.parse_encrypted (a256kw ∷ []) (a256gcm ∷ []) compact)

  -- `DecryptJWE2FA`.
  unfoldable pub decrypt_jwe_2fa : String → Bytes → String → String → Option Bytes
  decrypt_jwe_2fa compact session_key session_id direction =
      decrypt_under compact (derive_2fa_kek session_key direction session_id)

  abbrev octets : EncrypterOptions
  octets = record { typ = ""; content_type = "application/octet-stream"; headers = [] }

  -- `EncryptJWE`.
  unfoldable pub encrypt_jwe : Bytes → P → Option String
  encrypt_jwe plaintext recipient =
      lib.encrypt ecdh_es_a256kw a256gcm (to_public recipient) octets plaintext

  -- `DecryptJWE`.
  unfoldable pub decrypt_jwe : String → Q → Option Bytes
  decrypt_jwe compact key = decrypt_parsed (with_private key) (
      lib.parse_encrypted (ecdh_es_a256kw ∷ (ecdh_es_a128kw ∷ (ecdh_es ∷ [])))
        (a256gcm ∷ (a128gcm ∷ [])) compact)

  -- `EncryptJWESymmetric`.
  unfoldable pub encrypt_jwe_symmetric : Bytes → Bytes → Option String
  encrypt_jwe_symmetric plaintext key = lib.encrypt direct a256gcm (symmetric key) octets plaintext

  -- `DecryptJWESymmetric`.
  unfoldable pub decrypt_jwe_symmetric : String → Bytes → Option Bytes
  decrypt_jwe_symmetric compact key =
      decrypt_parsed (with_symmetric key)
        (lib.parse_encrypted (direct ∷ (a256kw ∷ [])) (a256gcm ∷ []) compact)
