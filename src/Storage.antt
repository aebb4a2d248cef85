-- ===== src/Storage.antt =====
-- trust-registry/src/storage: the contract of a record repository, and its implementations.
pub mod Factory
pub mod Repository
pub mod KeyValue
pub mod Fjall
pub mod Redis
pub mod Csv
pub mod Dynamo
pub mod Local
