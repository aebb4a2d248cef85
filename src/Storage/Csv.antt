-- ===== src/Storage/Csv.antt =====
-- trust-registry/src/storage/adapters/csv_file_storage.rs: the storage over a CSV file.
pub mod Row
pub mod File
pub mod Medium
pub mod Laws
pub mod Reload
pub mod Unwritten
