-- ===== src/Service.antt =====
-- internal/service: the dispatcher and the handlers of the service types.
pub mod Sad
pub mod Dispatcher
pub mod Handlers
pub mod Eudiw
