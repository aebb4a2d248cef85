-- ===== src/Client/Discovery.antt =====
-- trql-client/src/discovery.rs: the transports that a DID document advertises, and the choice of one.
-- Which transports are compiled in is a parameter.
pub mod Selection
pub mod Parsing
use Prim.Native.String.{String}
use text.Mathlib.Text.{◌==◌ as text_eq}
use trust_registry_build_pip.Base.{
  Bool, true, false, ◌||◌, Option, none, some, is_some, Result, ok, err, if◌then◌else◌, List, [],
  ◌∷◌, contains,
}
use trust_registry_build_pip.Domain.Json.{Value, Items, nil, cons, string, array, object, lookup}
use trust_registry_build_pip.Client.Error.{
  TransportKind, https, didcomm, tsp, kind_eq, TrqlError, no_matching_transport,
}

abbrev pub tsp_service_type : String
tsp_service_type = "TSPTransport"

abbrev pub didcomm_service_type : String
didcomm_service_type = "DIDCommMessaging"

abbrev pub rest_service_type : String
rest_service_type = "TRQPRest"

abbrev pub vta_rest_service_type : String
vta_rest_service_type = "VTARest"

abbrev pub preference_order : List TransportKind
preference_order = tsp ∷ didcomm ∷ https ∷ []

unfoldable pub service_type : TransportKind → String
service_type tsp = tsp_service_type
service_type didcomm = didcomm_service_type
service_type https = rest_service_type

abbrev pub filter : (TransportKind → Bool) → List TransportKind → List TransportKind
filter p [] = []
filter p (k ∷ ks) = let rest = filter p ks in if p k then k ∷ rest else rest

-- Its argument is `is_compiled`.
unfoldable pub compiled : (TransportKind → Bool) → List TransportKind
compiled is_compiled = filter is_compiled preference_order

pub record ServiceCapabilities : Type 0 where
  pub tsp : Option String
  pub didcomm : Option String
  pub https : Option String

abbrev pub default : ServiceCapabilities
default = record { tsp = none; didcomm = none; https = none }

pub record TransportChoice : Type 0 where
  pub kind : TransportKind
  pub endpoint : String

-- `Value::get`
abbrev pub member : Value → String → Option Value
member (object m) k = lookup m k
member _ k = none

some_string : Items → String → Bool
some_string nil type_ = false
some_string (cons (string s) rest) type_ = text_eq s type_ || some_string rest type_
some_string (cons v rest) type_ = some_string rest type_

type_matches : Option Value → String → Bool
type_matches (some (string s)) type_ = text_eq s type_
type_matches (some (array arr)) type_ = some_string arr type_
type_matches _ type_ = false

unfoldable pub service_has_type : Value → String → Bool
unfolding type_matches some_string lookup
service_has_type svc type_ = type_matches (member svc "type") type_

as_str : Option Value → Option String
as_str (some (string s)) = some s
as_str _ = none

unfoldable pub or_else : Option String → Option String → Option String
or_else (some s) o = some s
or_else none o = o

unfoldable mutual
  unfolding lookup as_str or_else

  pub endpoint_uri : Value → Option String
  endpoint_uri (string s) = some s
  endpoint_uri (object map) = as_str (lookup map "uri")
  endpoint_uri (array arr) = find_uri arr
  endpoint_uri _ = none

  pub find_uri : Items → Option String
  find_uri nil = none
  find_uri (cons v rest) = or_else (endpoint_uri v) (find_uri rest)

-- `Option::get_or_insert`
abbrev pub get_or_insert : Option String → String → Option String
get_or_insert none uri = some uri
get_or_insert (some old) uri = some old

and_endpoint : Option Value → Option String
and_endpoint none = none
and_endpoint (some endpoint) = endpoint_uri endpoint

unfoldable pub service_uri : Value → Option String
unfolding and_endpoint endpoint_uri lookup
service_uri svc = and_endpoint (member svc "serviceEndpoint")

abbrev pub add_uri : Value → String → ServiceCapabilities → ServiceCapabilities
add_uri svc uri caps =
    if text_eq uri ""
    then caps
    else if service_has_type svc tsp_service_type
    then record caps { tsp = get_or_insert caps.tsp uri }
    else if service_has_type svc didcomm_service_type
    then record caps { didcomm = get_or_insert caps.didcomm uri }
    else if service_has_type svc rest_service_type || service_has_type svc vta_rest_service_type
    then record caps { https = get_or_insert caps.https uri }
    else caps

abbrev pub add_found : Value → Option String → ServiceCapabilities → ServiceCapabilities
add_found svc none caps = caps
add_found svc (some uri) caps = add_uri svc uri caps

-- One round of the loop; `continue` leaves the capabilities as they are.
unfoldable pub add_service : Value → ServiceCapabilities → ServiceCapabilities
unfolding service_uri service_has_type
add_service svc caps = add_found svc (service_uri svc) caps

unfoldable pub add_services : Items → ServiceCapabilities → ServiceCapabilities
add_services nil caps = caps
add_services (cons svc rest) caps = add_services rest (add_service svc caps)

-- the `service` array of a document
abbrev pub services : Value → Items
services doc = elim (member doc "service") [ some (array items) ↦ items | _ ↦ nil ]

unfoldable pub from_document : Value → ServiceCapabilities
unfolding add_services add_service
from_document doc = add_services (services doc) default

unfoldable pub endpoint : ServiceCapabilities → TransportKind → Option String
endpoint caps tsp = caps.tsp
endpoint caps didcomm = caps.didcomm
endpoint caps https = caps.https

unfoldable pub advertised : ServiceCapabilities → List TransportKind
unfolding endpoint
advertised caps = filter (λ k. is_some (endpoint caps k)) preference_order

abbrev pub try_kind :
    TransportKind
    → Bool
    → Option String
    → Result TrqlError TransportChoice
    → Result TrqlError TransportChoice
try_kind kind true (some uri) rest = ok (record { kind = kind; endpoint = uri })
try_kind kind _ _ rest = rest

-- The loop over the preference order, which ends with the error.
unfoldable pub select_from :
    List TransportKind → ServiceCapabilities → List TransportKind → Result TrqlError TransportChoice
select_from [] caps ours = err (no_matching_transport ours (advertised caps))
select_from (kind ∷ kinds) caps ours =
    try_kind kind (contains ⦃e = kind_eq⦄ ours kind) (endpoint caps kind)
      (select_from kinds caps ours)

unfoldable pub select : ServiceCapabilities → List TransportKind → Result TrqlError TransportChoice
unfolding select_from endpoint advertised
select caps ours = select_from preference_order caps ours
