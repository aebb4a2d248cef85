-- ===== src/Configs.antt =====
-- trust-registry/src/configs: what the registry reads at the start. The environment and what the loaders
-- of files and of AWS give are parameters, as they are at the start.
pub mod Storage
pub mod Server
pub mod SecretStore
pub mod Didcomm
pub mod Vta
use trust_registry_build_pip.Base.{
  String, Bool, Option, none, some, unwrap_or, Result, ok, err, ok_or, List, [], ◌∷◌, format,
}
use trust_registry_build_pip.Base.Text.{strip_prefix}

-- A variable that is not valid Unicode counts as unset, as it does in the code.
abbrev pub Environment : Type 0
Environment = String → Option String

abbrev pub required_env : Environment → String → Result String String
required_env env env_name =
    ok_or (env env_name)
      (format ("Required environment variable '" ∷ env_name ∷ "' is not set" ∷ []))

abbrev pub optional_env : Environment → String → Option String
optional_env env env_name = env env_name

abbrev pub env_or : Environment → String → String → String
env_or env env_name default = unwrap_or (optional_env env env_name) default

-- The loaders of single sources; each fails with its own text.
pub record Loaders : Type 0 where
  pub file : String → Result String String
  pub aws_secrets : String → Result String String
  pub aws_parameter_store : String → Result String String

abbrev pub try_prefix :
    Option String → (String → Result String String) → Result String String → Result String String
try_prefix none load rest = rest
try_prefix (some content) load rest = load content

-- `string::load` gives the text itself.
unfoldable pub load : Loaders → String → Result String String
load loaders input = try_prefix (strip_prefix "string://" input) ok (
    try_prefix (strip_prefix "file://" input) loaders.file (
      try_prefix (strip_prefix "aws_secrets://" input) loaders.aws_secrets (
        try_prefix (strip_prefix "aws_parameter_store://" input) loaders.aws_parameter_store
          (ok input))))
