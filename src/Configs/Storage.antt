-- ===== src/Configs/Storage.antt =====
-- trust-registry/src/configs/storage.rs, and the choice of trust-registry/src/storage/factory.rs.
pub mod Selection
use Prim.Native.Nat.{◌^◌, ◌-◌}
use trust_registry_build_pip.Base.{
  ℕ, String, Bool, true, false, Option, none, some, Result, ok, err, map_err, ◌>>=◌, List, [], ◌∷◌,
  if◌then◌else◌, ◌==◌, ◌||◌, string_eq, ◌≡◌, refl, arith,
}
use trust_registry_build_pip.Base.Text.{parse_unsigned, to_ascii_lowercase}
use trust_registry_build_pip.Configs.{Environment, required_env, optional_env, env_or}

pub data TrustStorageBackend : Type 0 where
  csv dynamo_db redis fjall : TrustStorageBackend

pub record FileStorageConfig : Type 0 where
  pub is_enabled : Bool
  pub path : String
  pub update_interval_sec : ℕ

pub record DynamoDbStorageConfig : Type 0 where
  pub is_enabled : Bool
  pub table_name : String
  pub region : Option String
  pub profile : Option String
  pub endpoint_url : Option String

pub record RedisStorageConfig : Type 0 where
  pub is_enabled : Bool
  pub redis_url : String

pub record FjallStorageConfig : Type 0 where
  pub is_enabled : Bool
  pub path : String

pub record StorageConfig : Type 0 where
  pub ddb_storage_config : DynamoDbStorageConfig
  pub file_storage_config : FileStorageConfig
  pub redis_storage_config : RedisStorageConfig
  pub fjall_storage_config : FjallStorageConfig
  pub storage_backend : TrustStorageBackend

abbrev pub backend_of : String → TrustStorageBackend
backend_of name =
    if name == "dynamodb" || name == "ddb"
    then dynamo_db
    else if name == "redis"
    then redis
    else if name == "fjall"
    then fjall
    else csv

-- `to_lowercase`: no letter beyond ASCII becomes one of the letters of the names.
unfoldable pub load_storage_backend : Environment → TrustStorageBackend
load_storage_backend env = backend_of (to_ascii_lowercase (env_or env "TR_STORAGE_BACKEND" "csv"))

abbrev pub load_file : Environment → TrustStorageBackend → Result String FileStorageConfig
load_file env csv =
    parse_unsigned (2 ^ 64 - 1) (env_or env "FILE_STORAGE_UPDATE_INTERVAL_SEC" "60") >>= λ seconds.
    ok (record {
      is_enabled = true;
      path = env_or env "FILE_STORAGE_PATH" "trust_records.csv";
      update_interval_sec = seconds;
    })
load_file env _ = ok (record { is_enabled = false; path = ""; update_interval_sec = 0 })

abbrev pub or_else : Option String → Option String → Option String
or_else none o = o
or_else (some s) o = some s

abbrev pub load_dynamo_db : Environment → TrustStorageBackend → Result String DynamoDbStorageConfig
load_dynamo_db env dynamo_db = required_env env "DDB_TABLE_NAME" >>= λ table_name. ok (record {
  is_enabled = true;
  table_name = table_name;
  region = some (env_or env "AWS_REGION" "ap-southeast-1");
  profile = optional_env env "AWS_PROFILE";
  endpoint_url = or_else (optional_env env "AWS_ENDPOINT") (optional_env env "DYNAMODB_ENDPOINT");
})
load_dynamo_db env _ = ok (record {
  is_enabled = false;
  table_name = "";
  region = none;
  profile = none;
  endpoint_url = none;
})

abbrev pub load_redis : Environment → TrustStorageBackend → Result String RedisStorageConfig
load_redis env redis = required_env env "REDIS_URL" >>= λ redis_url.
    ok (record { is_enabled = true; redis_url = redis_url })
load_redis env _ = ok (record { is_enabled = false; redis_url = "" })

abbrev pub load_fjall : Environment → TrustStorageBackend → Result String FjallStorageConfig
load_fjall env fjall =
    ok (record { is_enabled = true; path = env_or env "TR_FJALL_PATH" "./trust_records.fjall" })
load_fjall env _ = ok (record { is_enabled = false; path = "" })

unfoldable pub load : Environment → Result String StorageConfig
load env = do
  ddb ← load_dynamo_db env (load_storage_backend env)
  file ← load_file env (load_storage_backend env)
  redis_config ← load_redis env (load_storage_backend env)
  fjall_config ← load_fjall env (load_storage_backend env)
  ok (record {
    ddb_storage_config = ddb;
    file_storage_config = file;
    redis_storage_config = redis_config;
    fjall_storage_config = fjall_config;
    storage_backend = load_storage_backend env;
  })

-- Which backends a configuration switches on.
abbrev pub is_enabled : StorageConfig → TrustStorageBackend → Bool
is_enabled config csv = config.file_storage_config.is_enabled
is_enabled config dynamo_db = config.ddb_storage_config.is_enabled
is_enabled config redis = config.redis_storage_config.is_enabled
is_enabled config fjall = config.fjall_storage_config.is_enabled

abbrev pub same_backend : TrustStorageBackend → TrustStorageBackend → Bool
same_backend csv csv = true
same_backend dynamo_db dynamo_db = true
same_backend redis redis = true
same_backend fjall fjall = true
same_backend _ _ = false
