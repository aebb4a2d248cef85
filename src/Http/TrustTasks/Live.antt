-- ===== src/Http/TrustTasks/Live.antt =====
-- The endpoint over the dispatcher for queries of the capability set, as `serve` of
-- trust-registry/src/server.rs wires them: what an enabled git-trust capability lets a caller do.
use trust_registry_build_pip.Base.{
  ℕ, String, true, false, ◌≡◌, ◌≢◌, refl, sym, ap, ◌∙◌, Option, some, none, subst, ok, ◌>>=◌, List,
  [], ◌∷◌, if◌then◌else◌, inl, inr, string_eq,
}
use trust_registry_build_pip.Base.HashMap
use trust_registry_build_pip.Domain.Record.{TrustRecord, is_authorized}
use trust_registry_build_pip.Storage.Repository.{Repository, View, Contract, Slots}
use trust_registry_build_pip.Storage.KeyValue.{Held}
use trust_registry_build_pip.TrustTasks.Framework.{Framework}
use trust_registry_build_pip.TrustTasks.Router.{Serializers}
use trust_registry_build_pip.TrustTasks.Router.Dispatch.{
  Payloads, Entry, Dispatching, on_recognition, on_authorization, build_query_dispatcher,
  handle_document, run,
}
use trust_registry_build_pip.Capabilities.Set.{
  CapabilityState, CapabilityStateStore, CapabilitySet, compose, register_if,
}
use trust_registry_build_pip.Capabilities.Set.Enablement.{InStep}
use trust_registry_build_pip.Capabilities.GitTrust.{authority_of, handle_grant, granted_payload}
use trust_registry_build_pip.Capabilities.GitTrust.Lifecycle.{tuple_key, grant_authorizes}
use trust_registry_build_pip.Capabilities.GitTrust.Definition.{
  Specs, on_grant, on_revoke, governance, definition,
}
use trust_registry_build_pip.Http.TrustTasks.{
  Binding, Response, handle_trust_task, handle_trust_task-dispatched,
}

module _ (F : Framework) (B : Binding F) (J : Serializers) (P : Payloads F J) (R : Repository)
    (D : Dispatching F R.Store P.type_uri) (X : Specs F)
    (on_list on_enable on_disable : Entry F R.Store) (S : CapabilityStateStore)
    (fresh my_vid : String) (now : ℕ) where
  abbrev pub LiveSet : Type 0
  LiveSet = CapabilitySet (governance F R X fresh on_list on_enable on_disable) S

  -- The set that `serve` builds is in step, with the one compiled capability and the dispatcher for
  -- queries as a base; the capability is enabled, for an authority.
  pub record Serving (set : LiveSet) (authority : String) : Type 0 where
    pub in_step : InStep (governance F R X fresh on_list on_enable on_disable) S set
    pub available :
        set.available ≡ ("git-trust", definition F R X fresh on_list on_enable on_disable S) ∷ []
    pub queries : set.base_query ≡ build_query_dispatcher F J P R D fresh now
    pub entry : CapabilityState
    pub stored : HashMap.get set.state "git-trust" ≡ some entry
    pub on : entry.enabled ≡ true
    pub configured : authority_of entry.config ≡ some authority

  abbrev served : Option String → List (Entry F R.Store)
  served authority =
      on_revoke F R X fresh authority
      ∷ on_grant F R X fresh authority
      ∷ on_list
      ∷ on_recognition F J P R D fresh now
      ∷ on_authorization F J P R D fresh now
      ∷ []

  query_dispatcher-served :
      (set : LiveSet) (authority : String)
      → Serving set authority
      → set.query_dispatcher ≡ served (some authority)
  unfolding compose register_if
  query_dispatcher-served set authority h =
      let G = governance F R X fresh on_list on_enable on_disable in
      let queries = build_query_dispatcher F J P R D fresh now in
      let made = definition F R X fresh on_list on_enable on_disable S in
      h.in_step.answers
      ∙ ap (λ b. compose G S b set.available set.state false) h.queries
      ∙ ap (λ a. compose G S queries a set.state false) h.available
      ∙ ap (λ o. register_if G S o made (on_list ∷ queries)) h.stored
      ∙ ap (λ b. if b then made.register (on_list ∷ queries) h.entry else on_list ∷ queries) h.on
      ∙ ap served h.configured

  -- No other type that is served is that of a grant.
  abbrev pub Apart : Type 0
  Apart =
      (X.revoke ≢ X.grant)
      × (on_list.0 ≢ X.grant)
      × (P.recognition ≢ X.grant)
      × (P.authorization ≢ X.grant)

  only_grant :
      (authority : Option String)
      → Apart
      → (other : Entry F R.Store) → Held other (served authority)
      → other.0 ≡ X.grant
      → other ≡ on_grant F R X fresh authority
  only_grant authority (a, b, c, d) other held same = elim held [
    | inl e ↦ absurd (a (ap (λ (x : Entry F R.Store). x.0) e ∙ same))
    | inr (inl e) ↦ sym e
    | inr (inr (inl e)) ↦ absurd (b (ap (λ (x : Entry F R.Store). x.0) e ∙ same))
    | inr (inr (inr (inl e))) ↦ absurd (c (ap (λ (x : Entry F R.Store). x.0) e ∙ same))
    | inr (inr (inr (inr (inl e)))) ↦ absurd (d (ap (λ (x : Entry F R.Store). x.0) e ∙ same))
    | inr (inr (inr (inr (inr none_)))) ↦ absurd none_
  ]

  handle_document-grant :
      (authority subject resource : String) (doc : F.Document)
      → Apart
      → P.type_uri doc ≡ X.grant
      → X.grant_payload doc ≡ ok (subject, resource)
      → handle_document F J P R D fresh now (served (some authority)) doc
        ≡ handle_grant F R (some authority) fresh doc subject resource
  unfolding handle_document
  handle_document-grant authority subject resource doc apart typed parsed =
      ap (run F J P R D fresh now) (
        D.finds (served (some authority)) doc fresh (on_grant F R X fresh (some authority))
          (handle_grant F R (some authority) fresh doc subject resource) (inr (inl refl))
          (only_grant (some authority) apart) (sym typed)
          (ap (λ o. o >>= λ p. ok (handle_grant F R (some authority) fresh doc p.0 p.1)) parsed))

  module _ (N : Slots) (IsReady : R.Store → Type 0) (view : R.Store → View)
      (C : Contract R N IsReady view) where
    -- Where the git-trust capability of a set as the server builds it is enabled for an authority, and no
    -- other type that is served is that of a grant: a grant that anyone posts is carried out, once its
    -- document parses and its parties and freshness are in order; no sender, no proof and no admin list
    -- is asked for. On a ready store where nothing stands for the subject and the resource, the response
    -- has status 200, and an authorized record of the authority stands for them.
    pub handle_trust_task-grant :
        (set : LiveSet) (authority subject resource body : String) (doc : F.Document) (s : R.Store)
        → Serving set authority
        → Apart
        → B.parse body ≡ ok doc
        → B.resolve_parties my_vid doc ≡ ok tt
        → B.validate_basic now my_vid doc ≡ ok tt
        → P.type_uri doc ≡ X.grant
        → X.grant_payload doc ≡ ok (subject, resource)
        → IsReady s
        → view s (tuple_key authority subject resource) ≡ none
        → let response =
            handle_trust_task F B J P R D set.query_dispatcher fresh my_vid now body s in
          (response.0.status ≡ 200)
          × (r : TrustRecord) × (view response.1 (tuple_key authority subject resource) ≡ some r)
          × (is_authorized r ≡ true)
    handle_trust_task-grant set authority subject resource body doc s serving apart parsed parties
          fresh_ typed payload ready free =
        let found =
          grant_authorizes F R N IsReady view C authority fresh doc subject resource s ready free in
        let granted = handle_grant F R (some authority) fresh doc subject resource s in
        let told = F.respond_with doc fresh (granted_payload subject resource) in
        let dispatched =
          ap (λ d. handle_document F J P R D fresh now d doc s)
            (query_dispatcher-served set authority serving)
          ∙ ap (λ h. h s) (handle_document-grant authority subject resource doc apart typed payload)
          ∙ ap (λ o. (o, granted.1)) found.0 in
        let done =
          handle_trust_task-dispatched F B J P R D set.query_dispatcher fresh my_vid now body doc s
            granted.1 told parsed parties fresh_ dispatched in
        subst
          (λ (x : Response × R.Store).
            (x.0.status ≡ 200)
            × (r : TrustRecord) × (view x.1 (tuple_key authority subject resource) ≡ some r)
            × (is_authorized r ≡ true))
          (sym done) (refl, found.2.0, found.2.1, found.2.2)
