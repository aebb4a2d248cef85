-- ===== src/Configs/Didcomm/Identity.antt =====
-- The identity of a registry that is configured with a VTA is the one of the VTA.
use trust_registry_build_pip.Base.{
  String, true, ◌≡◌, ◌≢◌, refl, sym, ap, ◌∙◌, arith, Option, none, some, Result, ok, err, ok_or,
  map_err, ◌>>=◌, [], ◌∷◌, format, bind_ok, if◌then◌else◌,
}
use trust_registry_build_pip.Didcomm.DidDocument.{from_env}
use trust_registry_build_pip.Configs.{Environment, optional_env, required_env}
use trust_registry_build_pip.Configs.Vta.{
  config_for, credential_at, with_url, vta_secret_cache, profile_of, profile_for,
  vta_config_from_env, startup_profile_json,
}
use trust_registry_build_pip.Configs.Didcomm.{
  DidcommConfig, Sources, profile_text, checked_url, document_of, from_store, load_enabled,
  load_with, load_didcomm,
}
use trust_registry_build_pip.Configs.Didcomm.Published.{read_config, chosen, published_url}

-- Two steps whose results are wrapped do not give nothing.
some-never :
    {A B : Type 0} (r : Result String A) (g : A → B) → (r >>= λ a. ok (some (g a))) ≢ ok none
some-never (ok a) g e = ground (arith, e)
some-never (err x) g e = ground (arith, e)

chain-never :
    {A B C : Type 0} (r : Result String A) (s : A → Result String B) (g : A → B → C)
    → (r >>= λ a. s a >>= λ b. ok (some (g a b))) ≢ ok none
chain-never (ok a) s g e = some-never (s a) (g a) e
chain-never (err x) s g e = ground (arith, e)

module _ (S : Sources) (env : Environment) where
  abbrev vta_profile : Result String (Option String)
  vta_profile = startup_profile_json S.stores S.sdk S.keyring S.loaders env

  config_for-some :
      (uri : String) → config_for S.stores S.sdk S.keyring S.loaders env (some uri) ≢ ok none
  config_for-some uri =
      chain-never
        (ok_or (optional_env env "TR_VTA_CONTEXT_ID")
          "TR_VTA_CREDENTIAL is set but TR_VTA_CONTEXT_ID is missing")
        (λ context_id. credential_at S.stores S.sdk S.keyring S.loaders env uri)
        (λ context_id credential.
          with_url S.stores S.sdk S.keyring S.loaders env (optional_env env "TR_VTA_URL")
            (S.sdk.new credential context_id))

  profile_for-some :
      (config : S.sdk.Config)
      → profile_for S.stores S.sdk S.keyring S.loaders env (some config) ≢ ok none
  profile_for-some config =
      chain-never
        (map_err (λ e. format ("VTA startup failed: " ∷ e ∷ []))
          (S.sdk.startup config (vta_secret_cache S.stores S.sdk S.keyring S.loaders env)))
        (λ started.
          map_err (λ e. format ("failed to decode VTA secrets bundle: " ∷ e ∷ []))
            (S.sdk.secrets_from_bundle started.1))
        (λ started secrets.
          S.sdk.print (profile_of S.stores S.sdk S.keyring S.loaders env started.0 secrets))

  bind-configured :
      (r : Result String (Option S.sdk.Config))
      → r ≢ ok none
      → (r >>= profile_for S.stores S.sdk S.keyring S.loaders env) ≢ ok none
  bind-configured (err x) there e = ground (arith, e)
  bind-configured (ok none) there e = there refl
  bind-configured (ok (some config)) there e = profile_for-some config e

  -- With a credential for the VTA, it is never passed over.
  vta_profile-some : (uri : String) → env "TR_VTA_CREDENTIAL" ≡ some uri → vta_profile ≢ ok none
  unfolding startup_profile_json vta_config_from_env
  vta_profile-some uri given = bind-configured vta_config_from_env_ (λ e.
      config_for-some uri (ap (config_for S.stores S.sdk S.keyring S.loaders env) (sym given) ∙ e))
    where
      vta_config_from_env_ : Result String (Option S.sdk.Config)
      vta_config_from_env_ = vta_config_from_env S.stores S.sdk S.keyring S.loaders env

  from_first :
      (r : Result String (Option String)) (text : String)
      → r ≢ ok none
      → (r >>= from_store S env) ≡ ok text
      → r ≡ ok (some text)
  from_first (err x) text there e = ground (arith, e)
  from_first (ok none) text there e = absurd (there refl)
  from_first (ok (some t)) text there e = ap (λ r. r >>= λ t. ok (some t)) e

  -- Where the build has the VTA, a credential for it is set, and a configuration was loaded with DIDComm
  -- on: the VTA gave a profile, and the configuration has that profile.
  pub load_didcomm-vta_identity :
      (uri : String) (config : DidcommConfig)
      → S.has_vta ≡ true
      → env "TR_VTA_CREDENTIAL" ≡ some uri
      → load_didcomm S env ≡ ok config
      → config.is_enabled ≡ true
      → (text : String) × (vta_profile ≡ ok (some text))
        × (S.parse_profile text ≡ ok config.profile_config)
  unfolding load_didcomm
  load_didcomm-vta_identity uri config built_in given e enabled =
      let read = bind_ok (from_env S.has_tsp env) (load_with S env) config e in
      let flags = read.0 in
      let there =
        read_config S env flags (required_env env "MEDIATOR_DID")
          (profile_text S env >>= S.parse_profile) (checked_url S (published_url S env))
          (λ profile m.
            document_of S profile m (published_url S env) flags (optional_env env "DID_DOCUMENT"))
          config
          (chosen S env flags.didcomm (load_enabled S env flags) flags config read.2 enabled) in
      let found = bind_ok (profile_text S env) S.parse_profile there.1 there.5 in
      (
        found.0,
        from_first vta_profile found.0 (vta_profile-some uri given) (
            ap (λ b. (if b then vta_profile else ok none) >>= from_store S env) (sym built_in)
            ∙ found.1),
        found.2 ∙ ap (λ (c : DidcommConfig). ok c.profile_config) there.4,
      )
