-- ===== src/Didcomm/DidDocument/Advertised.antt =====
-- What a client of trql-client/src/discovery.rs finds in the DID document of the registry.
use trust_registry_build_pip.Base.{
  String, Bool, true, false, ◌≡◌, refl, sym, ap, ◌∙◌, arith, ◌≤◌, contains, is_some, Option, none,
  some, List, ok, if◌then◌else◌, ◌==◌, nat_eq,
}
use trust_registry_build_pip.Base.Text.{trim_end_matches}
use trust_registry_build_pip.Domain.Json.{lookup}
use trust_registry_build_pip.Client.Error.{TransportKind, https, didcomm, tsp, kind_eq}
use trust_registry_build_pip.Client.Discovery.{
  TransportChoice, endpoint, service_has_type, service_uri, from_document, or_else, select,
  endpoint_uri,
}
use trust_registry_build_pip.Client.Discovery.Selection.{rank, select_best}
use trust_registry_build_pip.Client.Discovery.Parsing.{
  offer, service_kind, usable_uri, first_offer, from_document-first_offer,
}
use trust_registry_build_pip.Didcomm.DidDocument.{
  ProfileConfig, TransportFlags, advertised_url, services_for, build_services, build_did_document,
}

-- The URL that is advertised for the flag and the configured URL, without its last slashes.
abbrev pub rest_url : Bool → Option String → Option String
rest_url true (some url) = usable_uri (some (trim_end_matches (λ c. c == b'/') url))
rest_url _ _ = none

-- What a registry with the flags offers for a transport, by what it serves.
abbrev pub served : TransportFlags → String → Option String → TransportKind → Option String
served flags mediator_did url tsp = if flags.tsp then usable_uri (some mediator_did) else none
served flags mediator_did url didcomm =
    if flags.didcomm then usable_uri (some mediator_did) else none
served flags mediator_did url https = rest_url flags.rest url

entries-served :
    (k : TransportKind) (did mediator_did : String) (url : Option String) (flags : TransportFlags)
    → first_offer k (services_for did mediator_did url flags) ≡ served flags mediator_did url k
unfolding first_offer offer service_kind service_has_type service_uri or_else lookup endpoint_uri
entries-served tsp did m url flags = ground arith
entries-served didcomm did m url flags = ground arith
entries-served https did m url flags = ground arith

-- Whether the registry serves a transport.
abbrev pub serves : TransportFlags → TransportKind → Bool
serves flags tsp = flags.tsp
serves flags didcomm = flags.didcomm
serves flags https = flags.rest

-- A client finds in the document, for every transport, what the registry offers for it: the mediator
-- for TSP and DIDComm where they are switched on, and the configured URL, trimmed, for REST where that
-- is switched on, as far as these are not empty.
pub build_did_document-served :
    (profile : ProfileConfig) (mediator_did : String) (public_url : Option String)
    (flags : TransportFlags) (k : TransportKind)
    → endpoint (from_document (build_did_document profile mediator_did public_url flags)) k
      ≡ served flags mediator_did (advertised_url public_url) k
unfolding build_did_document build_services lookup
build_did_document-served profile mediator_did public_url flags k =
    from_document-first_offer (build_did_document profile mediator_did public_url flags) k
    ∙ entries-served k profile.did mediator_did (advertised_url public_url) flags

rest_url-on :
    (rest : Bool) (url : Option String) (uri : String) → rest_url rest url ≡ some uri → rest ≡ true
rest_url-on true url uri e = refl
rest_url-on false url uri e = ground (arith, e)

served-serves :
    (flags : TransportFlags) (mediator_did : String) (url : Option String) (k : TransportKind)
    (uri : String)
    → served flags mediator_did url k ≡ some uri
    → serves flags k ≡ true
served-serves flags m url tsp uri e = ground (arith, e)
served-serves flags m url didcomm uri e = ground (arith, e)
served-serves flags m url https uri e = rest_url-on flags.rest url uri e

-- A transport that a client selects from the document is one that the registry serves, with the endpoint
-- that the registry offers for it, and no other that both sides have is preferred to it.
pub select-serves :
    (profile : ProfileConfig) (mediator_did : String) (public_url : Option String)
    (flags : TransportFlags) (ours : List TransportKind) (c : TransportChoice)
    → select (from_document (build_did_document profile mediator_did public_url flags)) ours ≡ ok c
    → (serves flags c.kind ≡ true)
      × (served flags mediator_did (advertised_url public_url) c.kind ≡ some c.endpoint)
      × ((k : TransportKind)
          → contains ⦃e = kind_eq⦄ ours k ≡ true
          → is_some (served flags mediator_did (advertised_url public_url) k) ≡ true
          → rank c.kind ≤ rank k)
select-serves profile mediator_did public_url flags ours c e =
    let caps = from_document (build_did_document profile mediator_did public_url flags) in
    let finds : (k : TransportKind)
        → endpoint caps k ≡ served flags mediator_did (advertised_url public_url) k =
      build_did_document-served profile mediator_did public_url flags in
    let best = select_best caps ours c e in
    let offered = sym (finds c.kind) ∙ best.1 in
    (
      served-serves flags mediator_did (advertised_url public_url) c.kind c.endpoint offered,
      offered,
      λ k mine theirs. best.2 k (mine, ap is_some (finds k) ∙ theirs),
    )
