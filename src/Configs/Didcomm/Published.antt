-- ===== src/Configs/Didcomm/Published.antt =====
-- From the environment to the client: the registry that is configured serves the transports that a
-- client selects from the DID document that it publishes.
use trust_registry_build_pip.Base.{
  String, Bool, true, false, ◌≡◌, refl, sym, ap, subst, ◌∙◌, arith, Option, none, some, Result, ok,
  err, ◌>>=◌, bind_ok, List, not, if◌then◌else◌,
}
use trust_registry_build_pip.Domain.Json.{Value}
use trust_registry_build_pip.Client.Error.{TransportKind, kind_eq}
use trust_registry_build_pip.Client.Discovery.{TransportChoice, select, from_document}
use trust_registry_build_pip.Didcomm.DidDocument.{
  ProfileConfig, TransportFlags, build_did_document, from_env,
}
use trust_registry_build_pip.Didcomm.DidDocument.Advertised.{serves, select-serves}
use trust_registry_build_pip.Didcomm.DidDocument.Checks.{IsCoherent, from_env-IsCoherent}
use trust_registry_build_pip.Configs.{Environment, optional_env, required_env}
use trust_registry_build_pip.Configs.Didcomm.{
  DidcommConfig, Sources, disabled, profile_text, public_url_of, checked_url, document_of,
  config_of, load_enabled, load_with, load_didcomm,
}

module _ (S : Sources) (env : Environment) where
  pub read_config :
      (flags : TransportFlags) (m : Result String String) (p : Result String ProfileConfig)
      (u : Result String (Unit {0})) (d : ProfileConfig → String → Result String String)
      (config : DidcommConfig)
      → (m >>= λ mediator_did. p >>= λ profile. u >>= λ _. d profile mediator_did >>= λ document.
          ok (config_of S env flags mediator_did profile document))
        ≡ ok config
      → (mediator_did : String) × (profile : ProfileConfig) × (document : String) × (d profile
            mediator_did
          ≡ ok document)
        × (config_of S env flags mediator_did profile document ≡ config)
        × (p ≡ ok profile)
  read_config flags (ok m) (ok p) (ok u) d config e =
      let last = bind_ok (d p m) (λ document. ok (config_of S env flags m p document)) config e in
      (m, p, last.0, last.1, cc last.2, refl)
  read_config flags (err x) p u d config e = ground (arith, e)
  read_config flags (ok m) (err x) u d config e = ground (arith, e)
  read_config flags (ok m) (ok p) (err x) d config e = ground (arith, e)

  abbrev pub published_url : Option String
  published_url = public_url_of S (optional_env env "TR_PUBLIC_URL")

  -- A document that is not given is the one that is built.
  document-built :
      (profile : ProfileConfig) (mediator_did document : String) (flags : TransportFlags)
      (given : Option String)
      → given ≡ none
      → document_of S profile mediator_did published_url flags given ≡ ok document
      → S.to_text (build_did_document profile mediator_did published_url flags) ≡ document
  document-built profile m document flags none absent e = cc e
  document-built profile m document flags (some g) absent e = ground (arith, absent)

  pub chosen :
      (on : Bool) (full : Result String DidcommConfig) (flags : TransportFlags)
      (config : DidcommConfig)
      → (if not on then ok (disabled flags S.default_mode) else full) ≡ ok config
      → config.is_enabled ≡ true
      → full ≡ ok config
  chosen true full flags config e enabled = e
  chosen false full flags config e enabled = ground (arith, e, enabled)

  -- What was loaded with DIDComm on and no document given, and the flags of the environment.
  load-built :
      (config : DidcommConfig)
      → load_didcomm S env ≡ ok config
      → config.is_enabled ≡ true
      → env "DID_DOCUMENT" ≡ none
      → (from_env S.has_tsp env ≡ ok config.transport_flags)
        × (S.to_text (
              build_did_document config.profile_config config.mediator_did published_url
                config.transport_flags)
            ≡ config.did_document)
  unfolding load_didcomm
  load-built config e enabled absent =
      let read = bind_ok (from_env S.has_tsp env) (load_with S env) config e in
      let flags = read.0 in
      let there =
        read_config flags (required_env env "MEDIATOR_DID") (profile_text S env >>= S.parse_profile)
          (checked_url S published_url)
          (λ profile m.
            document_of S profile m published_url flags (optional_env env "DID_DOCUMENT"))
          config (chosen flags.didcomm (load_enabled S env flags) flags config read.2 enabled) in
      let same = document-built there.1 there.0 there.2 flags (env "DID_DOCUMENT") absent there.3 in
      (
        read.1 ∙ ap (λ (c : DidcommConfig). ok c.transport_flags) there.4,
        subst
            (λ (c : DidcommConfig).
              S.to_text
                (build_did_document c.profile_config c.mediator_did published_url c.transport_flags)
              ≡ c.did_document)
            there.4 same,
      )

  -- The document that is built for a configuration.
  abbrev pub built : DidcommConfig → Value
  built config =
      build_did_document config.profile_config config.mediator_did published_url
        config.transport_flags

  -- Where the configuration was loaded with DIDComm on and no document was given, and what is printed of it is
  -- read back: a transport that a client selects from the document that is published is one whose flag is set,
  -- and the flags are coherent.
  pub load_didcomm-serves :
      (config : DidcommConfig) (read_back : String → Value) (ours : List TransportKind)
      (c : TransportChoice)
      → read_back (S.to_text (built config)) ≡ built config
      → load_didcomm S env ≡ ok config
      → config.is_enabled ≡ true
      → env "DID_DOCUMENT" ≡ none
      → select (from_document (read_back config.did_document)) ours ≡ ok c
      → (serves config.transport_flags c.kind ≡ true) × IsCoherent S.has_tsp config.transport_flags
  load_didcomm-serves config read_back ours c reads e enabled absent selected =
      let there = load-built config e enabled absent in
      let back : read_back config.did_document ≡ built config =
        ap read_back (sym there.1) ∙ reads in
      (
        (select-serves config.profile_config config.mediator_did published_url
            config.transport_flags ours c
            (ap (λ v. select (from_document v) ours) (sym back) ∙ selected)).0,
        (from_env-IsCoherent S.has_tsp env config.transport_flags there.0).0,
      )
