-- ===== src/Pake.antt =====
-- internal/pake: sessions, the attempt counter and the OPAQUE wrapper.
pub mod Session
pub mod Counter
pub mod Opaque
