-- ===== src/Storage/Factory.antt =====
-- trust-registry/src/storage/factory.rs: the storage that the configuration names. How each storage is
-- opened is a parameter, and whether the build has Fjall.
use trust_registry_build_pip.Base.{ℕ, String, Bool, true, false, Result, err}
use trust_registry_build_pip.Configs.Storage.{
  TrustStorageBackend, csv, dynamo_db, redis, fjall, StorageConfig, DynamoDbStorageConfig,
}

pub record Openers (Repository : Type 0) : Type 0 where
  pub file_storage : String → ℕ → Result String Repository
  pub dynamo_db_storage : DynamoDbStorageConfig → Result String Repository
  pub redis_storage : String → Result String Repository
  pub fjall_storage : String → Result String Repository
  pub has_fjall : Bool

module _ {Repository : Type 0} (O : Openers Repository) where
  abbrev pub create_fjall : Bool → StorageConfig → Result String Repository
  create_fjall true config = O.fjall_storage config.fjall_storage_config.path
  create_fjall false config =
      err
        "TR_STORAGE_BACKEND=fjall selected but fjall support was not compiled; rebuild with --features storage-fjall"

  abbrev pub create_for : TrustStorageBackend → StorageConfig → Result String Repository
  create_for csv config =
      O.file_storage config.file_storage_config.path config.file_storage_config.update_interval_sec
  create_for dynamo_db config = O.dynamo_db_storage config.ddb_storage_config
  create_for redis config = O.redis_storage config.redis_storage_config.redis_url
  create_for fjall config = create_fjall O.has_fjall config

  unfoldable pub create_repository : StorageConfig → Result String Repository
  create_repository config = create_for config.storage_backend config
