-- ===== src/Configs/Didcomm.antt =====
-- trust-registry/src/configs/didcomm.rs: the configuration of the messaging side. The sources of the
-- identity are given as they answer at the start; JSON is a parameter.
pub mod Published
pub mod Identity
use Prim.Native.Nat.{◌^◌, ◌-◌}
use trust_registry_build_pip.Base.{
  ℕ, String, Bool, true, false, not, Option, none, some, unwrap_or, Result, ok, err, ◌>>=◌, List,
  [], ◌∷◌, map, if◌then◌else◌, ◌==◌, string_eq, format,
}
use trust_registry_build_pip.Base.Text.{trim, split, is_empty, parse_unsigned, to_ascii_lowercase}
use trust_registry_build_pip.Domain.Json.{Value}
use trust_registry_build_pip.Audit.Logger.{AuditLogFormat, text, json}
use trust_registry_build_pip.Configs.{
  Environment, Loaders, required_env, optional_env, env_or, load,
}
use trust_registry_build_pip.Configs.SecretStore.{
  SecretsConfig, SeedStores, secrets_config_from_env, backend_selected, data_dir, read_profile,
}
use trust_registry_build_pip.Configs.Vta.{Sdk, startup_profile_json}
use trust_registry_build_pip.Didcomm.DidDocument.{
  ProfileConfig, TransportFlags, from_env, validate_public_url, build_did_document,
}

-- `FromStr`; no letter beyond ASCII becomes one of the letters of the names.
abbrev pub format_of : String → String → Result String AuditLogFormat
format_of s name =
    if name == "text"
    then ok text
    else if name == "json"
    then ok json
    else err (format ("Invalid audit log format: " ∷ s ∷ []))

unfoldable pub from_str : String → Result String AuditLogFormat
from_str s = format_of s (to_ascii_lowercase s)

pub data AccessListModeType : Type 0 where
  explicit_allow explicit_deny : AccessListModeType

pub record AuditConfig : Type 0 where
  pub log_format : AuditLogFormat

pub record AdminConfig : Type 0 where
  pub admin_dids : List String
  pub audit_config : AuditConfig

pub record DidDocumentRetryConfig : Type 0 where
  pub max_attempts : ℕ
  pub initial_delay_secs : ℕ
  pub max_delay_secs : ℕ

pub record DidcommConfig : Type 0 where
  pub is_enabled : Bool
  pub transport_flags : TransportFlags
  pub acl_mode : AccessListModeType
  pub profile_config : ProfileConfig
  pub mediator_did : String
  pub did_document : String
  pub admin_config : AdminConfig
  pub retry_config : DidDocumentRetryConfig

abbrev pub default_retry : DidDocumentRetryConfig
default_retry = record { max_attempts = 10; initial_delay_secs = 2; max_delay_secs = 30 }

-- `Default` with the flags. `ExplicitDeny` is the library's default.
abbrev pub disabled : TransportFlags → AccessListModeType → DidcommConfig
disabled flags default_mode = record {
  is_enabled = false;
  transport_flags = flags;
  acl_mode = default_mode;
  profile_config = record { did = ""; alias = ""; secrets = [] };
  mediator_did = "";
  did_document = "";
  admin_config = record { admin_dids = []; audit_config = record { log_format = text } };
  retry_config = default_retry;
}

abbrev pub ok_or_default : {A : Type 0} → Result String A → A → A
ok_or_default (ok a) default = a
ok_or_default (err e) default = default

abbrev pub acl_mode_of : String → AccessListModeType
acl_mode_of raw = if raw == "ExplicitAllow" then explicit_allow else explicit_deny

unfoldable pub admin_dids_of : Option String → List String
admin_dids_of admin_dids = map trim (split b',' (unwrap_or admin_dids ""))

abbrev pub number_of : Environment → String → String → ℕ → ℕ → ℕ
number_of env name default maximum fallback =
    ok_or_default (parse_unsigned maximum (env_or env name default)) fallback

abbrev pub retry_config_of : Environment → DidDocumentRetryConfig
retry_config_of env = record {
  max_attempts = number_of env "DID_CHECK_MAX_ATTEMPTS" "10" (2 ^ 32 - 1) 10;
  initial_delay_secs = number_of env "DID_CHECK_INITIAL_DELAY_SECS" "2" (2 ^ 64 - 1) 2;
  max_delay_secs = number_of env "DID_CHECK_MAX_DELAY_SECS" "20" (2 ^ 64 - 1) 20;
}

-- What is built in, the libraries of the sources, the mode of the library's default, and JSON in both directions.
pub record Sources : Type 1 where
  pub has_tsp : Bool
  pub has_vta : Bool
  pub loaders : Loaders
  pub stores : SeedStores
  pub sdk : Sdk stores
  pub keyring : String
  pub default_mode : AccessListModeType
  pub parse_profile : String → Result String ProfileConfig
  pub to_text : Value → String

module _ (S : Sources) where
  abbrev pub from_inline : Environment → Option String → Result String String
  from_inline env (some bundle) = ok bundle
  from_inline env none = required_env env "PROFILE_CONFIG" >>= load S.loaders

  abbrev pub read_selected : Environment → SecretsConfig → Result String (Option String)
  read_selected env cfg =
      if not (backend_selected cfg) then ok none else read_profile S.stores cfg (data_dir env)

  abbrev pub load_profile_from_secret_store : Environment → Result String (Option String)
  load_profile_from_secret_store env = read_selected env (secrets_config_from_env S.keyring env)

  abbrev pub load_profile_from_vta : Environment → Result String (Option String)
  load_profile_from_vta env =
      if S.has_vta then startup_profile_json S.stores S.sdk S.keyring S.loaders env else ok none

  abbrev pub from_store : Environment → Option String → Result String String
  from_store env (some bundle) = ok bundle
  from_store env none = load_profile_from_secret_store env >>= from_inline env

  -- The identity: of the VTA, else of the secret store, else the one in the environment.
  abbrev pub profile_text : Environment → Result String String
  profile_text env = load_profile_from_vta env >>= from_store env

  abbrev pub public_url_of : Option String → Option String
  public_url_of none = none
  public_url_of (some u) = let url = trim u in if is_empty url then none else some url

  abbrev pub checked_url : Option String → Result String (Unit {0})
  checked_url none = ok tt
  checked_url (some url) = validate_public_url url

  abbrev pub document_of :
      ProfileConfig → String → Option String → TransportFlags → Option String → Result String String
  document_of profile mediator_did public_url flags (some doc) = load S.loaders doc
  document_of profile mediator_did public_url flags none =
      ok (S.to_text (build_did_document profile mediator_did public_url flags))

  -- The configuration, once everything that can fail has been read.
  abbrev pub config_of :
      Environment → TransportFlags → String → ProfileConfig → String → DidcommConfig
  config_of env flags mediator_did profile document = record {
    is_enabled = true;
    transport_flags = flags;
    acl_mode = acl_mode_of (env_or env "ACL_MODE" "ExplicitDeny");
    profile_config = profile;
    mediator_did = mediator_did;
    did_document = document;
    admin_config = record {
      admin_dids = admin_dids_of (optional_env env "ADMIN_DIDS");
      audit_config = record {
        log_format = ok_or_default (from_str (env_or env "AUDIT_LOG_FORMAT" "text")) text;
      };
    };
    retry_config = retry_config_of env;
  }

  -- The rest of `load`, with DIDComm switched on.
  abbrev pub load_enabled : Environment → TransportFlags → Result String DidcommConfig
  load_enabled env flags =
      let public_url = public_url_of (optional_env env "TR_PUBLIC_URL") in
      required_env env "MEDIATOR_DID" >>= λ mediator_did.
      (profile_text env >>= S.parse_profile) >>= λ profile. checked_url public_url >>= λ _.
      document_of profile mediator_did public_url flags (optional_env env "DID_DOCUMENT")
      >>= λ document. ok (config_of env flags mediator_did profile document)

  abbrev pub load_with : Environment → TransportFlags → Result String DidcommConfig
  load_with env flags =
      if not flags.didcomm then ok (disabled flags S.default_mode) else load_enabled env flags

  unfoldable pub load_didcomm : Environment → Result String DidcommConfig
  load_didcomm env = from_env S.has_tsp env >>= load_with env
