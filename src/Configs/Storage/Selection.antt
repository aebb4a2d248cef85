-- ===== src/Configs/Storage/Selection.antt =====
-- A storage configuration switches on the backend that it names, and no other.
use trust_registry_build_pip.Base.{◌≡◌, sym, ap, ◌∙◌, arith, ok, ◌>>=◌}
use trust_registry_build_pip.Configs.{Environment}
use trust_registry_build_pip.Configs.Storage.{
  TrustStorageBackend, csv, dynamo_db, redis, fjall, StorageConfig, load_file, load_dynamo_db,
  load_redis, load_fjall, load_storage_backend, load, is_enabled, same_backend,
}

-- What the four loads give for a backend.
loaded :
    (env : Environment) (backend k : TrustStorageBackend) (config : StorageConfig)
    → (load_dynamo_db env backend >>= λ ddb. load_file env backend >>= λ file.
        load_redis env backend >>= λ redis_config. load_fjall env backend >>= λ fjall_config.
        ok (record {
          ddb_storage_config = ddb;
          file_storage_config = file;
          redis_storage_config = redis_config;
          fjall_storage_config = fjall_config;
          storage_backend = backend;
        }))
      ≡ ok config
    → (config.storage_backend ≡ backend) × (is_enabled config k ≡ same_backend backend k)
loaded env csv k config e = ground (arith, e)
loaded env dynamo_db k config e = ground (arith, e)
loaded env redis k config e = ground (arith, e)
loaded env fjall k config e = ground (arith, e)

-- A configuration that is loaded names the backend of the environment, and switches on that one and no
-- other.
pub load-is_enabled :
    (env : Environment) (config : StorageConfig) (k : TrustStorageBackend)
    → load env ≡ ok config
    → (config.storage_backend ≡ load_storage_backend env)
      × (is_enabled config k ≡ same_backend config.storage_backend k)
unfolding load
load-is_enabled env config k e =
    let there = loaded env (load_storage_backend env) k config e in
    (there.0, there.1 ∙ ap (λ b. same_backend b k) (sym there.0))
