-- ===== src/Service/Eudiw.antt =====
-- internal/service/eudiw_handlers.go: the attestations of a wallet provider and their status. The
-- configuration and the messages stand here. Audit records are left out.
pub mod Jwk
pub mod Issue
pub mod Revoke
pub mod Chain
pub mod Lifecycle
pub mod Sound
pub mod Reach
pub mod Withdrawn
use go_r2ps_service.Base.{ℕ, String, Option, List}
use go_r2ps_service.Base.Int.{ℤ}
use go_r2ps_service.Protocol.{Bytes}
use go_r2ps_service.Crypto.Jwt.{JoseSigner}
use go_r2ps_service.Store.{Store}

-- `K` is the type of a signing key, `I` that of the certification information, which any JSON
-- value may be.
pub record WalletProviderConfig (S K I : Type 0) : Type 0 where
  pub signing_key : K
  pub x5c_chain : List Bytes
  pub wallet_link : String
  pub wallet_name : String
  pub wallet_version : String
  pub wallet_solution_certification_info : I
  pub key_storage_level : List String
  pub user_auth_level : List String
  pub certification : String
  pub status_list_base_uri : String
  pub wka_ttl : ℤ
  pub wia_ttl : ℤ
  pub status_maintenance_period : ℤ
  pub store : Store S

-- `crashed` is a panic of the Go runtime.
pub data Failure : Type 0 where
  refused : String → Failure
  crashed : Failure

pub record EudiwAttestationRequest : Type 0 where
  pub keys_to_attest : List String
  pub ver : String

pub record StatusListRef : Type 0 where
  pub idx : ℕ
  pub uri : String

pub record StatusObject : Type 0 where
  pub status : StatusListRef
  pub exp : ℤ

-- A key is the JSON text of its JWK.
pub record WkaPayload : Type 0 where
  pub iat : ℤ
  pub exp : ℤ
  pub attested_keys : List String
  pub key_storage : List String
  pub user_authentication : List String
  pub certification : String
  pub wallet_link : String
  pub key_storage_status : StatusObject

pub record WiaPayload (I : Type 0) : Type 0 where
  pub iat : ℤ
  pub exp : ℤ
  pub sub : String
  pub wallet_name : String
  pub wallet_version : String
  pub wallet_solution_certification_information : I
  pub wallet_link : String
  pub client_status : StatusObject
  pub cnf : String

-- The answer to a revocation and to a suspension.
pub record WiStatusResponse : Type 0 where
  pub indices : ℕ
  pub message : String

-- encoding/json; of a request to revoke or suspend only the audit log reads the reason.
pub record EudiwCodec (I : Type 0) : Type 0 where
  pub parse_attestation : Bytes → Option EudiwAttestationRequest
  pub parse_reason : Bytes → Option String
  pub marshal_wka : WkaPayload → Option Bytes
  pub marshal_wia : WiaPayload I → Option Bytes
  pub marshal_wka_response : String → Bytes
  pub marshal_wia_response : String → Bytes
  pub marshal_revoked : WiStatusResponse → Bytes
  pub marshal_suspended : WiStatusResponse → Bytes
