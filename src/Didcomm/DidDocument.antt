-- ===== src/Didcomm/DidDocument.antt =====
-- trust-registry/src/didcomm/did_document.rs: the DID document that the registry publishes, and the
-- flags of the transports that it serves. JSON stays a value. `ENABLE_TSP` needs a build with TSP, which
-- is a parameter.
pub mod Advertised
pub mod Checks
use Prim.Native.String
use text.Mathlib.Text.{starts_with}
use trust_registry_build_pip.Base.{
  ℕ, zero, suc, ◌+◌, String, Bool, true, false, not, ◌&&◌, ◌||◌, Option, none, some, Result, ok,
  err, ◌>>=◌, if◌then◌else◌, List, [], ◌∷◌, format, ◌==◌, string_eq, nat_eq,
}
use trust_registry_build_pip.Base.Text.{
  trim, trim_end_matches, strip_prefix, split_first, is_empty, decimal, to_ascii_lowercase,
}
use trust_registry_build_pip.Domain.Json.{
  Value, Items, Fields, string, array, object, nil, cons, field, end, insert,
}

-- `JWK` and `Secret` of the libraries, with the private part `d`. `other` stands for the kinds of keys
-- and of material that the code does not publish.
pub data Params : Type 0 where
  ec : (curve x y : String) → (d : Option String) → Params
  okp : (curve x : String) → (d : Option String) → Params
  other_params : Params

pub record Jwk : Type 0 where
  pub key_id : Option String
  pub params : Params

pub data SecretMaterial : Type 0 where
  jwk : Jwk → SecretMaterial
  other_material : SecretMaterial

pub record Secret : Type 0 where
  pub id : String
  pub secret_material : SecretMaterial

pub record ProfileConfig : Type 0 where
  pub did : String
  pub alias : String
  pub secrets : List Secret

abbrev pub with_kid : Option String → Fields → Value
with_kid none jwk_obj = object jwk_obj
with_kid (some kid) jwk_obj = object (insert jwk_obj "kid" (string kid))

abbrev pub public_params : Option String → Params → Value
public_params key_id (ec curve x y d) = with_kid key_id (
    field "kty" (string "EC")
      (field "crv" (string curve) (field "x" (string x) (field "y" (string y) end))))
public_params key_id (okp curve x d) =
    with_kid key_id
      (field "kty" (string "OKP") (field "crv" (string curve) (field "x" (string x) end)))
public_params key_id other_params = object end

unfoldable pub build_public_jwk : Jwk → Value
build_public_jwk key = public_params key.key_id key.params

abbrev pub public_material : SecretMaterial → Value
public_material (jwk j) = build_public_jwk j
public_material other_material = object end

abbrev pub key_ref : String → ℕ → String
key_ref did index = format (did ∷ "#key-" ∷ decimal index ∷ [])

abbrev pub verification_method : String → ℕ → Secret → Value
verification_method did index secret = object (
    field "id" (string (key_ref did index)) (
      field "type" (string "JsonWebKey2020") (
        field "controller" (string did)
          (field "publicKeyJwk" (public_material secret.secret_material) end))))

-- `enumerate`, from an index
unfoldable pub methods_from : String → ℕ → List Secret → Items
methods_from did index [] = nil
methods_from did index (secret ∷ secrets) =
    cons (verification_method did index secret) (methods_from did (suc index) secrets)

unfoldable pub build_verification_methods : ProfileConfig → Items
build_verification_methods profile = methods_from profile.did 0 profile.secrets

abbrev pub rest_service_type : String
rest_service_type = "TRQPRest"

abbrev pub didcomm_service_type : String
didcomm_service_type = "DIDCommMessaging"

abbrev pub didcomm_service_fragment : String
didcomm_service_fragment = "#didcomm"

abbrev pub rest_service_fragment : String
rest_service_fragment = "#rest"

abbrev pub tsp_service_type : String
tsp_service_type = "TSPTransport"

abbrev pub tsp_service_fragment : String
tsp_service_fragment = "#tsp"

pub record TransportFlags : Type 0 where
  pub rest : Bool
  pub didcomm : Bool
  pub tsp : Bool

-- `Default`
abbrev pub default : TransportFlags
default = record { rest = true; didcomm = true; tsp = false }

-- The environment, where a variable that is not valid Unicode counts as unset, as in the code.
abbrev pub Environment : Type 0
Environment = String → Option String

abbrev pub parse_flag : String → Bool → String → Result String Bool
parse_flag name default other =
    if other == ""
    then ok default
    else if other == "true"
    then ok true
    else if other == "false"
    then ok false
    else err (format (name ∷ " must be 'true' or 'false' (got '" ∷ other ∷ "')" ∷ []))

abbrev pub flag_of : String → Bool → Option String → Result String Bool
flag_of name default none = ok default
flag_of name default (some raw) = parse_flag name default (to_ascii_lowercase (trim raw))

unfoldable pub env_flag : Environment → String → Bool → Result String Bool
env_flag env name default = flag_of name default (env name)

-- The argument says whether the build has the feature `tsp`.
unfoldable pub validate : Bool → TransportFlags → Result String (Unit {0})
validate has_tsp flags =
    if not flags.rest && not flags.didcomm && not flags.tsp
    then err
        "at least one transport must be enabled: set ENABLE_REST, ENABLE_DIDCOMM or ENABLE_TSP to 'true' (a registry with no transport can serve nobody)"
    else if flags.tsp && not flags.didcomm
    then err
        "ENABLE_TSP=true requires ENABLE_DIDCOMM=true: TSP frames are multiplexed on the DIDComm mediator socket and cannot be received without it"
    else if flags.tsp && not has_tsp
    then err
        "ENABLE_TSP=true requires a binary built with `--features tsp`; this build cannot serve TSP and must not advertise it"
    else ok tt

unfoldable pub from_env : Bool → Environment → Result String TransportFlags
from_env has_tsp env = do
  rest ← env_flag env "ENABLE_REST" true
  didcomm ← env_flag env "ENABLE_DIDCOMM" true
  tsp ← env_flag env "ENABLE_TSP" false
  let flags : TransportFlags = record { rest = rest; didcomm = didcomm; tsp = tsp }
  _ ← validate has_tsp flags
  ok flags

abbrev pub is_loopback : Option String → Bool
is_loopback none = false
is_loopback (some rest) =
    let host = split_first (b'/' ∷ b':' ∷ b'?' ∷ []) rest in
    host == "localhost" || host == "127.0.0.1" || starts_with rest "[::1]"

unfoldable pub validate_public_url : String → Result String (Unit {0})
validate_public_url url =
    if starts_with url "https://"
    then ok tt
    else if is_loopback (strip_prefix "http://" url)
    then ok tt
    else err (
        format (
          "TR_PUBLIC_URL must be https:// (got '" ∷ url
          ∷ "'); cleartext TRQP is spoofable by an on-path attacker. http:// is allowed only to loopback for local dev."
          ∷ []))

abbrev pub service : String → String → Value → Value
service id type_ endpoint =
    object
      (field "id" (string id) (field "type" (string type_) (field "serviceEndpoint" endpoint end)))

abbrev pub push_if : Bool → Value → Items → Items
push_if true entry rest = cons entry rest
push_if false entry rest = rest

abbrev pub didcomm_endpoint : String → Value
didcomm_endpoint mediator_did = object (
    field "uri" (string mediator_did) (
      field "accept" (array (cons (string "didcomm/v2") nil))
        (field "routingKeys" (array nil) end)))

-- The URL that is advertised, if there is one.
abbrev pub advertised_url : Option String → Option String
advertised_url none = none
advertised_url (some raw) = let url = trim raw in if is_empty url then none else some url

abbrev pub push_rest : Bool → String → Option String → Items → Items
push_rest true did (some url) rest =
    cons
      (service (format (did ∷ rest_service_fragment ∷ [])) rest_service_type
        (string (trim_end_matches (λ c. c == b'/') url)))
      rest
push_rest _ did _ rest = rest

abbrev pub services_for : String → String → Option String → TransportFlags → Items
services_for did mediator_did url flags =
    push_if flags.didcomm
      (service (format (did ∷ didcomm_service_fragment ∷ [])) didcomm_service_type
        (didcomm_endpoint mediator_did))
      (push_rest flags.rest did url (
        push_if flags.tsp
          (service (format (did ∷ tsp_service_fragment ∷ [])) tsp_service_type
            (string mediator_did))
          nil))

unfoldable pub build_services : String → String → Option String → TransportFlags → Items
build_services did mediator_did public_url flags =
    services_for did mediator_did (advertised_url public_url) flags

unfoldable pub key_refs_from : String → ℕ → List Secret → Items
key_refs_from did index [] = nil
key_refs_from did index (secret ∷ secrets) =
    cons (string (key_ref did index)) (key_refs_from did (suc index) secrets)

-- The document, before it is printed.
unfoldable pub build_did_document : ProfileConfig → String → Option String → TransportFlags → Value
build_did_document profile mediator_did public_url flags =
    let key_refs = array (key_refs_from profile.did 0 profile.secrets) in
    object (
      field "@context"
        (array (
          cons (string "https://www.w3.org/ns/did/v1")
            (cons (string "https://w3id.org/security/suites/jws-2020/v1") nil)))
        (field "id" (string profile.did) (
          field "verificationMethod" (array (build_verification_methods profile)) (
            field "authentication" key_refs (
              field "assertionMethod" key_refs (
                field "keyAgreement" key_refs (
                  field "service" (array (build_services profile.did mediator_did public_url flags))
                    end)))))))
