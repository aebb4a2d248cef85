-- ===== src/TrustTasks.antt =====
-- trust-registry/src/trust_tasks: the Trust Task framework as the code uses it, and the policy for
-- writes.
pub mod Framework
pub mod Proof
pub mod Router
pub mod Gate
