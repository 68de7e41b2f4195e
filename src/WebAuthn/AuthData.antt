-- ===== src/WebAuthn/AuthData.antt =====
-- internal/webauthn/types.go: authenticator data and COSE keys. Whether a point is on P-256 is a
-- parameter, as is SHA-256.
use Prim.Native.Nat.{bit_and}
use go_r2ps_service.Base.{
  ℕ, ◌+◌, ◌%◌, Bool, not, Option, none, some, [], leb, nat_beq, length, take, drop, if◌then◌else◌,
  ◌==◌, bytes_eq, String,
}
use go_r2ps_service.Base.Assoc.{lookup}
use go_r2ps_service.Base.Exec.{ok, err}
use go_r2ps_service.Base.Int.{negsuc, int_eq}
use go_r2ps_service.Base.Text.{utf8}
use go_r2ps_service.Protocol.{Bytes}
use go_r2ps_service.WebAuthn.Outcome.{
  Outcome, rejected, in_bounds, ◌>>=◌, ◌>>◌, ensure, byte_at, slice, big_endian,
}
use go_r2ps_service.WebAuthn.Cbor.{decode_cbor_map}

-- An ECDSA public key on P-256.
pub record PublicKey : Type 0 where
  pub x : ℕ
  pub y : ℕ

pub record AuthenticatorData : Type 0 where
  pub rp_id_hash : Bytes
  pub flags : ℕ
  pub sign_count : ℕ
  pub aaguid : Bytes
  pub credential_id : Bytes
  pub public_key : Option PublicKey

abbrev pub flag_up : ℕ
flag_up = 0x01

abbrev pub flag_uv : ℕ
flag_uv = 0x04

abbrev pub flag_at : ℕ
flag_at = 0x40

abbrev pub has_flag : ℕ → ℕ → Bool
has_flag flags f = not (nat_beq (bit_and flags f) 0)

-- A coordinate: a byte string of 32 bytes under its key.
abbrev pub coordinate : Option Bytes → Outcome ℕ
coordinate none = err rejected
coordinate (some b) = if nat_beq (length b) 32 then ok (big_endian 0 b) else err rejected

module _ (is_on_curve : ℕ → ℕ → Bool) where
  -- `parseCOSEKey`: -2 is x and -3 is y.
  unfoldable pub parse_cose_key : Bytes → Outcome PublicKey
  parse_cose_key bytes = do
    m ← decode_cbor_map bytes
    x ← coordinate (lookup (negsuc 1) m)
    y ← coordinate (lookup (negsuc 2) m)
    ensure (is_on_curve x y)
    ok (record { x = x; y = y })

  abbrev pub without_attested : Bytes → ℕ → ℕ → AuthenticatorData
  without_attested hash flags count = record {
    rp_id_hash = hash;
    flags = flags;
    sign_count = count;
    aaguid = [];
    credential_id = [];
    public_key = none;
  }

  -- The attested credential data, behind the first 37 bytes. `55+credIDLen` is a uint16 sum and
  -- wraps around, and a slice whose end lies before its start panics.
  unfoldable pub parse_attested : Bytes → AuthenticatorData → Outcome AuthenticatorData
  unfolding parse_cose_key
  parse_attested bytes ad = do
    ensure (leb 55 (length bytes))
    aaguid ← slice bytes 37 16
    len ← slice bytes 53 2
    let cred_id_len = big_endian 0 len
    ensure (leb (55 + cred_id_len) (length bytes))
    let end = (55 + cred_id_len) % 65536
    in_bounds (leb 55 end)
    key ← parse_cose_key (drop end bytes)
    ok (record ad {
      aaguid = aaguid;
      credential_id = take cred_id_len (drop 55 bytes);
      public_key = some key;
    })

  -- `ParseAuthenticatorData`.
  unfoldable pub parse_authenticator_data : Bytes → Outcome AuthenticatorData
  unfolding parse_attested
  parse_authenticator_data bytes = do
    ensure (leb 37 (length bytes))
    flags ← byte_at bytes 32
    count ← slice bytes 33 4
    let ad = without_attested (take 32 bytes) flags (big_endian 0 count)
    if has_flag flags flag_at then parse_attested bytes ad else ok ad

-- `VerifyRPIDHash`.
unfoldable pub verify_rp_id_hash : (Bytes → Bytes) → AuthenticatorData → String → Bool
verify_rp_id_hash sha256 ad rp_id = ad.rp_id_hash == sha256 (utf8 rp_id)
