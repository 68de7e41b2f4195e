-- ===== src/Crypto.antt =====
-- internal/crypto: the parts that are more than one call of a library.
pub mod Jws
pub mod Jwt
pub mod Jwe
pub mod Ecdh
