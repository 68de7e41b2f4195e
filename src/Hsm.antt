-- ===== src/Hsm.antt =====
-- internal/hsm/pkcs11.go over the PKCS#11 library, which is a parameter, as are encoding/asn1,
-- crypto/elliptic and SHA-256. `T` is the state of the token; a session and an object are their
-- handles.
pub mod Keys
pub mod Operations
pub mod Pool
use go_r2ps_service.Base.{ℕ, String, Bool, Option, List, map}
use go_r2ps_service.Base.Exec.{Result, Exec}
use go_r2ps_service.Base.Int.{ℤ}
use go_r2ps_service.Protocol.{Bytes}
use go_r2ps_service.Crypto.Jwt.{Curve}

pub record Pkcs11Config : Type 0 where
  pub module_path : String
  pub slot_id : ℕ
  pub pin : String
  pub token_label : String
  pub pool_size : ℤ

pub data ObjectClass : Type 0 where
  private_key public_key secret_key : ObjectClass

pub data KeyType : Type 0 where
  ec generic_secret : KeyType

pub data Attribute : Type 0 where
  class : ObjectClass → Attribute
  key_type : KeyType → Attribute
  id : Bytes → Attribute
  ec_params : Bytes → Attribute
  token verify sign sensitive extractable derive : Bool → Attribute
  value_len : ℕ → Attribute

-- The attributes that are read.
pub data AttributeKind : Type 0 where
  ec_point curve_params key_id value : AttributeKind

pub data Mechanism : Type 0 where
  ec_key_pair_gen ecdsa : Mechanism
  ecdh1_derive : Bytes → Mechanism

pub record Pkcs11 (T : Type 0) : Type 0 where
  pub initialize : Exec T String (Unit {0})
  pub finalize : T → T
  pub get_slot_list : Exec T String (List ℕ)
  pub get_token_label : ℕ → Exec T String String
  pub open_session : ℕ → Exec T String ℕ
  pub close_session : ℕ → T → T
  pub login : ℕ → String → Exec T String (Unit {0})
  pub logout : ℕ → T → T
  pub find_objects_init : ℕ → List Attribute → Exec T String (Unit {0})
  pub find_objects : ℕ → ℕ → Exec T String (List ℕ)
  pub find_objects_final : ℕ → T → T
  pub generate_key_pair : ℕ → Mechanism → List Attribute → List Attribute → Exec T String (ℕ × ℕ)
  pub get_attribute_value : ℕ → ℕ → AttributeKind → Exec T String (List Bytes)
  pub set_attribute_value : ℕ → ℕ → List Attribute → Exec T String (Unit {0})
  pub sign_init : ℕ → Mechanism → ℕ → Exec T String (Unit {0})
  pub sign : ℕ → Bytes → Exec T String Bytes
  pub derive_key : ℕ → Mechanism → ℕ → List Attribute → Exec T String ℕ
  pub destroy_object : ℕ → ℕ → T → T

-- An object identifier is the list of its numbers.
pub record Primitives : Type 0 where
  pub marshal_oid : List ℕ → Option Bytes
  pub unmarshal_oid : Bytes → Option (List ℕ)
  pub unmarshal_octets : Bytes → Option (Bytes × Bytes)
  pub marshal_signature : ℕ → ℕ → Option Bytes
  pub unmarshal_point : Curve → Bytes → Option (ℕ × ℕ)
  pub unmarshal_compressed : Curve → Bytes → Option (ℕ × ℕ)
  pub marshal_point : Curve → ℕ × ℕ → Bytes
  pub marshal_compressed : Curve → ℕ × ℕ → Bytes
  pub sha256 : Bytes → Bytes
