-- ===== src/Configs/Vta.antt =====
-- trust-registry/src/configs/vta.rs: the identity of the registry from a VTA, with its cache in the secret
-- store, and the rotation of its keys. The client library of the VTA and the JSON encodings are
-- parameters. The feature `vta` is on.
use trust_registry_build_pip.Base.{
  ℕ, String, Option, none, some, unwrap_or, Result, ok, map_err, ok_or, ◌>>=◌, List, [], ◌∷◌,
  format, if◌then◌else◌,
}
use trust_registry_build_pip.Base.Text.{strip_prefix, split, is_empty}
use trust_registry_build_pip.Domain.Json.{Value, string, object, field, end}
use trust_registry_build_pip.Configs.{Environment, Loaders, optional_env, load}
use trust_registry_build_pip.Configs.SecretStore.{
  SeedStores, secrets_config_from_env, data_dir, read_profile, write_profile,
}

-- `SecretCache` of the library.
pub record SecretCache (Bundle Store : Type 0) : Type 0 where
  pub store : Bundle → Result String Store
  pub cached : Result String (Option Bundle)

pub record Rotated : Type 0 where
  pub did : String
  pub new_scid : String
  pub new_version_id : String

pub record Sdk (S : SeedStores) : Type 1 where
  pub Credential : Type 0
  pub Bundle : Type 0
  pub Config : Type 0
  pub Client : Type 0
  pub to_string : Bundle → Result String String
  pub from_str : String → Result String Bundle
  pub read_credential : String → Result String Credential
  pub new : Credential → String → Config
  pub override_url : String → Config → Config
  pub startup : Config → SecretCache Bundle S.Store → Result String (String × Bundle)
  pub secrets_from_bundle : Bundle → Result String Value
  pub print : Value → String
  pub from_credential : Credential → Option String → Result String Client
  pub rotate_did_webvh_keys :
      Client → String → String → Option ℕ → Option String → Result String Rotated

abbrev pub first_part : List String → String
first_part [] = ""
first_part (part ∷ parts) = part

abbrev pub non_empty : String → Option String
non_empty s = if is_empty s then none else some s

abbrev pub scid_of_rest : Option String → Option String
scid_of_rest none = none
scid_of_rest (some rest) = non_empty (first_part (split b':' rest))

unfoldable pub scid_of : String → Option String
scid_of did = scid_of_rest (strip_prefix "did:webvh:" did)

module _ (S : SeedStores) (sdk : Sdk S) (keyring : String) (loaders : Loaders)
    (env : Environment) where
  unfoldable pub store : sdk.Bundle → Result String S.Store
  store bundle = do
    json ← sdk.to_string bundle
    write_profile S (secrets_config_from_env keyring env) (data_dir env) json

  abbrev pub bundle_from : Option String → Result String (Option sdk.Bundle)
  bundle_from none = ok none
  bundle_from (some json) = sdk.from_str json >>= λ bundle. ok (some bundle)

  unfoldable pub cached : Result String (Option sdk.Bundle)
  cached = read_profile S (secrets_config_from_env keyring env) (data_dir env) >>= λ json.
      bundle_from json

  abbrev pub vta_secret_cache : SecretCache sdk.Bundle S.Store
  vta_secret_cache = record { store = store; cached = cached }

  abbrev pub credential_at : String → Result String sdk.Credential
  credential_at uri = do
    json ← load loaders uri
    map_err (λ e. format ("invalid TR_VTA_CREDENTIAL bundle: " ∷ e ∷ [])) (sdk.read_credential json)

  abbrev pub with_url : Option String → sdk.Config → sdk.Config
  with_url none config = config
  with_url (some url) config = sdk.override_url url config

  abbrev pub config_for : Option String → Result String (Option sdk.Config)
  config_for none = ok none
  config_for (some uri) = do
    context_id ←
        ok_or (optional_env env "TR_VTA_CONTEXT_ID")
          "TR_VTA_CREDENTIAL is set but TR_VTA_CONTEXT_ID is missing"
    credential ← credential_at uri
    ok (some (with_url (optional_env env "TR_VTA_URL") (sdk.new credential context_id)))

  unfoldable pub vta_config_from_env : Result String (Option sdk.Config)
  vta_config_from_env = config_for (optional_env env "TR_VTA_CREDENTIAL")

  abbrev pub profile_of : String → Value → Value
  profile_of did secrets = object (
      field "alias" (string (unwrap_or (optional_env env "TR_ALIAS") "Trust Registry"))
        (field "did" (string did) (field "secrets" secrets end)))

  abbrev pub profile_for : Option sdk.Config → Result String (Option String)
  profile_for none = ok none
  profile_for (some config) = do
    started ←
        map_err (λ e. format ("VTA startup failed: " ∷ e ∷ []))
          (sdk.startup config vta_secret_cache)
    secrets ←
        map_err (λ e. format ("failed to decode VTA secrets bundle: " ∷ e ∷ []))
          (sdk.secrets_from_bundle started.1)
    ok (some (sdk.print (profile_of started.0 secrets)))

  unfoldable pub startup_profile_json : Result String (Option String)
  startup_profile_json = vta_config_from_env >>= λ config. profile_for config

  unfoldable pub rotate_did : String → Option ℕ → Option String → Result String Rotated
  rotate_did did pre_rotation_count label = do
    uri ←
        ok_or (optional_env env "TR_VTA_CREDENTIAL")
          "VTA is not configured (TR_VTA_CREDENTIAL unset)"
    context_id ←
        ok_or (optional_env env "TR_VTA_CONTEXT_ID")
          "TR_VTA_CONTEXT_ID is required to rotate the DID"
    scid ←
        ok_or (scid_of did)
          (format ("DID " ∷ did ∷ " is not a did:webvh; cannot rotate its keys" ∷ []))
    credential ← credential_at uri
    client ←
        map_err (λ e. format ("VTA authentication failed: " ∷ e ∷ []))
          (sdk.from_credential credential (optional_env env "TR_VTA_URL"))
    map_err (λ e. format ("VTA did:webvh key rotation failed: " ∷ e ∷ []))
        (sdk.rotate_did_webvh_keys client context_id scid pre_rotation_count label)
