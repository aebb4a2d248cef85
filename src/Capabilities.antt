-- ===== src/Capabilities.antt =====
-- trust-registry/src/capabilities: which capabilities are enabled, and the capability `git-trust`.
pub mod Set
pub mod GitTrust
pub mod Governance
pub mod FileStore
