-- ===== src/Configs/Server.antt =====
-- trust-registry/src/configs/server.rs, and the choice of origins of trust-registry/src/server.rs.
use trust_registry_build_pip.Base.{
  String, Option, none, some, unwrap_or, List, [], ◌∷◌, map, if◌then◌else◌, ◌==◌, string_eq,
}
use trust_registry_build_pip.Base.Text.{trim, split, is_empty}
use trust_registry_build_pip.Configs.{Environment, env_or, optional_env}

abbrev pub default_listen_address : String
default_listen_address = "0.0.0.0:3232"

pub record ServerConfig : Type 0 where
  pub listen_address : String
  pub cors_allowed_origins : List String

abbrev pub non_empty : List String → List String
non_empty [] = []
non_empty (s ∷ ss) = let rest = non_empty ss in if is_empty s then rest else s ∷ rest

unfoldable pub load : Environment → ServerConfig
load env = record {
  listen_address = env_or env "LISTEN_ADDRESS" default_listen_address;
  cors_allowed_origins =
      non_empty (map trim (split b',' (unwrap_or (optional_env env "CORS_ALLOWED_ORIGINS") "")));
}

-- The layer that `build_cors_layer` makes: any origin, or those of the list that parse.
pub data CorsLayer (Origin : Type 0) : Type 0 where
  permissive : CorsLayer Origin
  allow_origin : List Origin → CorsLayer Origin

abbrev pub parsed_origins : {Origin : Type 0} → (String → Option Origin) → List String → List Origin
parsed_origins parse [] = []
parsed_origins parse (s ∷ ss) =
    let rest = parsed_origins parse ss in
    elim (parse s) [ none ↦ rest | some origin ↦ origin ∷ rest ]

unfoldable pub build_cors_layer :
    {Origin : Type 0} → (String → Option Origin) → List String → CorsLayer Origin
build_cors_layer parse [] = permissive
build_cors_layer parse (origin ∷ []) =
    if origin == "*" then permissive else allow_origin (parsed_origins parse (origin ∷ []))
build_cors_layer parse (origin ∷ other ∷ origins) =
    allow_origin (parsed_origins parse (origin ∷ other ∷ origins))
