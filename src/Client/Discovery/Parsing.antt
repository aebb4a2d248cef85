-- ===== src/Client/Discovery/Parsing.antt =====
-- The endpoint that a document advertises for a transport is that of its first usable entry.
use text.Mathlib.Text.{◌==◌ as text_eq}
use trust_registry_build_pip.Base.{
  String, Bool, false, ◌||◌, ◌≡◌, refl, ap, ◌∙◌, arith, Option, none, some, if◌then◌else◌,
}
use trust_registry_build_pip.Domain.Json.{Value, Items, nil, cons}
use trust_registry_build_pip.Client.Error.{TransportKind, https, didcomm, tsp, kind_beq}
use trust_registry_build_pip.Client.Discovery.{
  ServiceCapabilities, endpoint, default, service_has_type, service_uri, tsp_service_type,
  didcomm_service_type, rest_service_type, vta_rest_service_type, add_service, add_found,
  add_services, services, from_document, or_else,
}

-- The transport of an entry, by its types alone.
unfoldable pub service_kind : Value → Option TransportKind
service_kind svc =
    if service_has_type svc tsp_service_type
    then some tsp
    else if service_has_type svc didcomm_service_type
    then some didcomm
    else if service_has_type svc rest_service_type || service_has_type svc vta_rest_service_type
    then some https
    else none

abbrev pub usable_uri : Option String → Option String
usable_uri none = none
usable_uri (some uri) = if text_eq uri "" then none else some uri

abbrev pub has_kind : Option TransportKind → TransportKind → Bool
has_kind none k = false
has_kind (some j) k = kind_beq j k

-- What an entry offers for a transport: its URI, unless that is missing or empty.
unfoldable pub offer : TransportKind → Value → Option String
offer k svc = if has_kind (service_kind svc) k then usable_uri (service_uri svc) else none

unfoldable pub first_offer : TransportKind → Items → Option String
first_offer k nil = none
first_offer k (cons svc rest) = or_else (offer k svc) (first_offer k rest)

add_found-offer :
    (svc : Value) (uri : Option String) (caps : ServiceCapabilities) (k : TransportKind)
    → endpoint (add_found svc uri caps) k
      ≡ or_else (endpoint caps k) (if has_kind (service_kind svc) k then usable_uri uri else none)
unfolding endpoint service_kind or_else
add_found-offer svc uri caps https = ground arith
add_found-offer svc uri caps k = ground arith

add_service-offer :
    (svc : Value) (caps : ServiceCapabilities) (k : TransportKind)
    → endpoint (add_service svc caps) k ≡ or_else (endpoint caps k) (offer k svc)
unfolding add_service offer
add_service-offer svc caps k = add_found-offer svc (service_uri svc) caps k

or_else_assoc : (a b c : Option String) → or_else (or_else a b) c ≡ or_else a (or_else b c)
unfolding or_else
or_else_assoc none b c = refl
or_else_assoc (some s) b c = refl

add_services-offer :
    (items : Items) (caps : ServiceCapabilities) (k : TransportKind)
    → endpoint (add_services items caps) k ≡ or_else (endpoint caps k) (first_offer k items)
unfolding add_services first_offer or_else
add_services-offer nil caps k = ground arith
add_services-offer (cons svc rest) caps k =
    add_services-offer rest (add_service svc caps) k
    ∙ ap (λ o. or_else o (first_offer k rest)) (add_service-offer svc caps k)
    ∙ or_else_assoc (endpoint caps k) (offer k svc) (first_offer k rest)

nothing : (k : TransportKind) (o : Option String) → or_else (endpoint default k) o ≡ o
unfolding endpoint or_else
nothing https o = refl
nothing k o = refl

-- For each transport the parsed capabilities hold the first URI that the document offers for it.
pub from_document-first_offer :
    (doc : Value) (k : TransportKind)
    → endpoint (from_document doc) k ≡ first_offer k (services doc)
unfolding from_document
from_document-first_offer doc k =
    add_services-offer (services doc) default k ∙ nothing k (first_offer k (services doc))
