-- ===== src/Http.antt =====
-- The HTTP side: trust-registry/src/http.
pub mod Error
pub mod Trqp
pub mod TrustTasks
