-- ===== src/Tests/Configs.antt =====
-- A registry configured by a few variables.
use trust_registry_build_pip.Base.{
  true, false, ◌≡◌, refl, Option, String, none, some, ok, err, List, [], ◌∷◌, ◌==◌, string_eq,
  if◌then◌else◌,
}
use trust_registry_build_pip.Base.Text.{
  trim_end_matches, trim_start_matches, split, strip_prefix, parse_unsigned, to_ascii_lowercase,
}
use trust_registry_build_pip.Domain.Json.{null, lookup}
use trust_registry_build_pip.Client.Error.{didcomm, tsp}
use trust_registry_build_pip.Client.Discovery.{select, from_document}
use trust_registry_build_pip.Didcomm.DidDocument.{
  ProfileConfig, TransportFlags, from_env, env_flag, validate, build_services, build_did_document,
}
use trust_registry_build_pip.Didcomm.DidDocument.Advertised.{serves}
use trust_registry_build_pip.Didcomm.DidDocument.Checks.{IsCoherent}
use trust_registry_build_pip.Audit.Logger.{text}
use trust_registry_build_pip.Configs.{Environment, load}
use trust_registry_build_pip.Configs.SecretStore.{SeedStores}
use trust_registry_build_pip.Configs.Vta.{Sdk, startup_profile_json, vta_config_from_env}
use trust_registry_build_pip.Health.{new, mark_writes_unavailable}
use trust_registry_build_pip.Server.{
  TaskExit, http_exit, didcomm_exit, join, start_didcomm_server, join-listener_outcome_lost,
}
use trust_registry_build_pip.Configs.Didcomm.{
  DidcommConfig, Sources, explicit_deny, admin_dids_of, from_str, load_didcomm,
}
use trust_registry_build_pip.Configs.Didcomm.Identity.{load_didcomm-vta_identity}
use trust_registry_build_pip.Configs.Didcomm.Published.{built, load_didcomm-serves}

abbrev env : Environment
env name =
    if name == "MEDIATOR_DID"
    then some "did:m"
    else if name == "TR_STORAGE_BACKEND"
    then some "Redis"
    else if name == "REDIS_URL"
    then some "redis://r"
    else if name == "TR_VTA_CREDENTIAL"
    then some "credential"
    else if name == "TR_VTA_CONTEXT_ID"
    then some "context"
    else none

abbrev profile : ProfileConfig
profile = record { did = "did:web:r"; alias = "r"; secrets = [] }

abbrev flags : TransportFlags
flags = record { rest = true; didcomm = true; tsp = false }

-- A store with one text, and a VTA that knows the identity.
abbrev stores : SeedStores
stores = record {
  Store = Option String;
  Bytes = String;
  create_seed_store = λ cfg dir. ok none;
  get = λ s. ok s;
  set = λ bytes s. (ok tt, some bytes);
  from_utf8 = ok;
  as_bytes = λ t. t;
}

abbrev sdk : Sdk stores
sdk = record {
  Credential = String;
  Bundle = String;
  Config = String;
  Client = String;
  to_string = ok;
  from_str = ok;
  read_credential = ok;
  new = λ credential context_id. context_id;
  override_url = λ url config. url;
  startup = λ config cache. ok ("did:web:r", "secrets");
  secrets_from_bundle = λ b. ok null;
  print = λ v. "bundle";
  from_credential = λ credential url. ok credential;
  rotate_did_webvh_keys = λ client context_id scid n label.
      ok (record { did = "did:web:r"; new_scid = scid; new_version_id = "2" });
}

abbrev sources : Sources
sources = record {
  has_tsp = false;
  loaders = record { file = err; aws_secrets = err; aws_parameter_store = err };
  has_vta = true;
  stores = stores;
  sdk = sdk;
  keyring = "tr";
  default_mode = explicit_deny;
  parse_profile = λ t. ok profile;
  to_text = λ v. "document";
}

abbrev config : DidcommConfig
config = record {
  is_enabled = true;
  transport_flags = flags;
  acl_mode = explicit_deny;
  profile_config = profile;
  mediator_did = "did:m";
  did_document = "document";
  admin_config = record { admin_dids = "" ∷ []; audit_config = record { log_format = text } };
  retry_config = record { max_attempts = 10; initial_delay_secs = 2; max_delay_secs = 20 };
}

configured : load_didcomm sources env ≡ ok config
unfolding load_didcomm startup_profile_json vta_config_from_env load strip_prefix from_env env_flag
    validate admin_dids_of from_str parse_unsigned split to_ascii_lowercase trim_end_matches
    trim_start_matches
configured = refl

selected :
    select (from_document (built sources env config)) (tsp ∷ didcomm ∷ [])
    ≡ ok (record { kind = didcomm; endpoint = "did:m" })
unfolding select from_document build_did_document build_services lookup
selected = refl

load_didcomm-serves_example : (serves flags didcomm ≡ true) × IsCoherent false flags
load_didcomm-serves_example =
    load_didcomm-serves sources env config (λ t. built sources env config) (tsp ∷ didcomm ∷ [])
      (record { kind = didcomm; endpoint = "did:m" }) refl configured refl refl selected

-- The listener fails, and the HTTP server goes on until its own end.
abbrev exits : List TaskExit
exits = didcomm_exit (ok (err "no mediator")) ∷ http_exit (ok (ok tt)) ∷ []

load_didcomm-vta_identity_example :
    (text : String) × (startup_profile_json stores sdk "tr" sources.loaders env ≡ ok (some text))
    × (sources.parse_profile text ≡ ok config.profile_config)
load_didcomm-vta_identity_example =
    load_didcomm-vta_identity sources env "credential" config refl refl configured refl

join-listener_outcome_lost_example :
    (join true
      (didcomm_exit (ok (start_didcomm_server (ok (err "no mediator")))) ∷ [])
      (new true)).1
    ≡ mark_writes_unavailable "didcomm listener exited cleanly" (new true)
join-listener_outcome_lost_example = join-listener_outcome_lost (err "no mediator") [] (new true)
