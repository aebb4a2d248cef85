-- ===== src/Domain.antt =====
-- trust-registry/src/domain: trust records, their builder, JSON contexts, and storage keys.
pub mod Json
pub mod RecordType
pub mod Record
pub mod Builder
pub mod Key
