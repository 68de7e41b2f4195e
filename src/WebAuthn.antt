-- ===== src/WebAuthn.antt =====
-- internal/webauthn: the CBOR and authenticator data parsers, and the two ceremonies.
pub mod Outcome
pub mod Cbor
pub mod AuthData
pub mod Verify
pub mod Token
