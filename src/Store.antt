-- ===== src/Store.antt =====
-- internal/store/store.go: the persistence interface, as a record of operations over the state of
-- an implementation. A read is a function of the state; a write gives the new state beside its
-- result. Of an error it is kept whether it is that of a missing entry, which callers look at.
pub mod Memory
pub mod Run
pub mod Mongo
use go_r2ps_service.Base.{ℕ, String, Bool, List}
use go_r2ps_service.Base.Int.{ℤ}
use go_r2ps_service.Base.Exec.{Result, Exec}
use go_r2ps_service.Protocol.{Bytes}

abbrev pub status_valid : ℕ
status_valid = 0

abbrev pub status_invalid : ℕ
status_invalid = 1

abbrev pub status_suspended : ℕ
status_suspended = 2

pub record PublicKeyInfo : Type 0 where
  pub kid : String
  pub curve : String
  pub pub_key : Bytes
  pub creation_time : ℤ
  pub client_id : String

pub record WebAuthnCredential : Type 0 where
  pub credential_id : Bytes
  pub public_key : Bytes
  pub sign_count : ℕ
  pub aaguid : Bytes
  pub created_at : ℤ

pub data StoreError : Type 0 where
  not_found unavailable : StoreError

pub record Store (S : Type 0) : Type 0 where
  pub allocate_index : String → Exec S StoreError ℕ
  pub get_status : String → ℕ → S → Result StoreError ℕ
  pub set_status : String → ℕ → ℕ → Exec S StoreError (Unit {0})
  pub get_all_statuses : String → S → Result StoreError (List (ℕ × ℕ))
  pub record_wua : String → String → ℕ → Exec S StoreError (Unit {0})
  pub get_client_indices : String → String → S → Result StoreError (List ℕ)
  pub record_usage : String → ℕ → Exec S StoreError (Unit {0})
  pub is_used : String → ℕ → S → Result StoreError Bool
  pub put_public_key : PublicKeyInfo → Exec S StoreError (Unit {0})
  pub get_public_key : String → S → Result StoreError PublicKeyInfo
  pub list_public_keys : String → S → Result StoreError (List PublicKeyInfo)
  pub put_record : String → String → Bytes → Exec S StoreError (Unit {0})
  pub get_record : String → String → S → Result StoreError Bytes
  pub put_web_authn_credential : String → String → WebAuthnCredential → Exec S StoreError (Unit {0})
  pub get_web_authn_credential : String → String → S → Result StoreError (List WebAuthnCredential)
  pub update_web_authn_sign_count : String → String → Bytes → ℕ → Exec S StoreError (Unit {0})
