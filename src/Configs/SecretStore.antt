-- ===== src/Configs/SecretStore.antt =====
-- trust-registry/src/configs/secret_store.rs: which store holds the identity of the registry, and the
-- reading and writing of it. The stores and the default configuration are a library's.
use trust_registry_build_pip.Base.{
  String, Bool, false, ◌||◌, Option, none, some, is_some, unwrap_or, Result, ok, map_err, ◌>>=◌, [],
  ◌∷◌, format, if◌then◌else◌, ◌==◌, string_eq,
}
use trust_registry_build_pip.Base.Text.{is_empty}
use trust_registry_build_pip.Configs.{Environment}

abbrev pub default_data_dir : String
default_data_dir = "./.trust-registry"

pub record SecretsConfig : Type 0 where
  pub seed : Option String
  pub aws_secret_name : Option String
  pub aws_region : Option String
  pub gcp_project : Option String
  pub gcp_secret_name : Option String
  pub azure_vault_url : Option String
  pub azure_secret_name : Option String
  pub keyring_service : String
  pub vault_addr : Option String
  pub vault_secret_path : Option String
  pub vault_token : Option String
  pub vault_namespace : Option String
  pub k8s_secret_name : Option String
  pub k8s_namespace : Option String
  pub allow_plaintext : Bool

abbrev pub filled : Option String → Option String
filled none = none
filled (some v) = if is_empty v then none else some v

-- The argument is the keyring service of the library's default.
unfoldable pub secrets_config_from_env : String → Environment → SecretsConfig
secrets_config_from_env keyring env = record {
  seed = filled (env "TR_SECRETS_SEED");
  aws_secret_name = filled (env "TR_SECRETS_AWS_SECRET_NAME");
  aws_region = filled (env "TR_SECRETS_AWS_REGION");
  gcp_project = filled (env "TR_SECRETS_GCP_PROJECT");
  gcp_secret_name = filled (env "TR_SECRETS_GCP_SECRET_NAME");
  azure_vault_url = filled (env "TR_SECRETS_AZURE_VAULT_URL");
  azure_secret_name = filled (env "TR_SECRETS_AZURE_SECRET_NAME");
  keyring_service = unwrap_or (filled (env "TR_SECRETS_KEYRING_SERVICE")) keyring;
  vault_addr = filled (env "TR_SECRETS_VAULT_ADDR");
  vault_secret_path = filled (env "TR_SECRETS_VAULT_SECRET_PATH");
  vault_token = filled (env "TR_SECRETS_VAULT_TOKEN");
  vault_namespace = filled (env "TR_SECRETS_VAULT_NAMESPACE");
  k8s_secret_name = filled (env "TR_SECRETS_K8S_SECRET_NAME");
  k8s_namespace = filled (env "TR_SECRETS_K8S_NAMESPACE");
  allow_plaintext = elim (env "TR_SECRETS_ALLOW_PLAINTEXT") [ none ↦ false | some v ↦ v == "true" ];
}

unfoldable pub backend_selected : SecretsConfig → Bool
backend_selected cfg =
    is_some cfg.seed
    || is_some cfg.aws_secret_name
    || is_some cfg.gcp_secret_name
    || is_some cfg.azure_secret_name
    || is_some cfg.vault_secret_path
    || is_some cfg.k8s_secret_name

unfoldable pub data_dir : Environment → String
data_dir env = unwrap_or (env "TR_SECRETS_DATA_DIR") default_data_dir

-- `create_seed_store` opens a store; `get` and `set` are its methods.
pub record SeedStores : Type 1 where
  pub Store : Type 0
  pub Bytes : Type 0
  pub create_seed_store : SecretsConfig → String → Result String Store
  pub get : Store → Result String (Option Bytes)
  pub set : Bytes → Store → Result String (Unit {0}) × Store
  pub from_utf8 : Bytes → Result String String
  pub as_bytes : String → Bytes

module _ (S : SeedStores) where
  abbrev pub bundle_of : Option S.Bytes → Result String (Option String)
  bundle_of none = ok none
  bundle_of (some bytes) =
      map_err (λ e. format ("secret store returned non-UTF8 bundle: " ∷ e ∷ [])) (S.from_utf8 bytes)
      >>= λ bundle. ok (some bundle)

  abbrev pub open_store : SecretsConfig → String → Result String S.Store
  open_store cfg dir =
      map_err (λ e. format ("secret store init: " ∷ e ∷ [])) (S.create_seed_store cfg dir)

  unfoldable pub read_profile : SecretsConfig → String → Result String (Option String)
  read_profile cfg dir = do
    store ← open_store cfg dir
    bytes ← map_err (λ e. format ("secret store read: " ∷ e ∷ [])) (S.get store)
    bundle_of bytes

  -- With the store that the write leaves.
  unfoldable pub write_profile : SecretsConfig → String → String → Result String S.Store
  write_profile cfg dir bundle = open_store cfg dir >>= λ store.
      let (outcome, store') = S.set (S.as_bytes bundle) store in
      map_err (λ e. format ("secret store write: " ∷ e ∷ [])) outcome >>= λ _. ok store'
