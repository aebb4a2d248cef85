-- ===== src/TrustTasks/Router/Dispatch.antt =====
-- trust-registry/src/trust_tasks/router.rs: the dispatchers over the handlers. The crate's dispatcher
-- and the generated payload types are parameters.
use trust_registry_build_pip.Base.{
  ℕ, String, List, [], ◌∷◌, Result, ok, err, ◌>>=◌, ◌≡◌, ◌≢◌, refl, sym, ap, ◌∙◌, arith, inl, inr,
  Result-cases,
}
use trust_registry_build_pip.Storage.Repository.{Repository, View, Contract, Slots}
use trust_registry_build_pip.Storage.KeyValue.{Held}
use trust_registry_build_pip.TrustTasks.Framework.{Framework, Handler}
use trust_registry_build_pip.TrustTasks.Router.{
  KeyPayload, Serializers, handle_recognition, handle_authorization, handle_create, handle_update,
  handle_delete, handle_read, handle_list,
}
use trust_registry_build_pip.TrustTasks.Router.Queries.{
  handle_recognition-view, handle_authorization-view,
}

-- The request types: their URIs, and the payload that a document of a type carries.
pub record Payloads (F : Framework) (J : Serializers) : Type 1 where
  pub type_uri : F.Document → String
  pub recognition : String
  pub authorization : String
  pub record_create : String
  pub record_update : String
  pub record_delete : String
  pub record_read : String
  pub record_list : String
  pub apart : recognition ≢ authorization
  pub key_payload : String → F.Document → Result String KeyPayload
  pub write_payload : String → F.Document → Result String J.SpecRecord
  pub list_payload : F.Document → Result String (Unit {0})

-- A registered type with its handler: `on::<Payload, _>(handler)`
abbrev pub Entry : Framework → Type 0 → Type 0
Entry F W = String × (F.Document → Result String (Handler F W))

-- `Dispatcher::dispatch_or_reject`: what it runs is what one of the registered handlers makes of the
-- document, and the one handler of the document's type is run if the payload parses.
pub record Dispatching (F : Framework) (W : Type 0) (type_uri : F.Document → String) : Type 0 where
  pub dispatch_or_reject :
      List (Entry F W) → F.Document → String → Result F.ErrorResponse (Handler F W)
  pub picks :
      (entries : List (Entry F W)) (doc : F.Document) (id : String) (h : Handler F W)
      → dispatch_or_reject entries doc id ≡ ok h
      → (entry : Entry F W) × Held entry entries × (entry.1 doc ≡ ok h)
  pub finds :
      (entries : List (Entry F W)) (doc : F.Document) (id : String) (entry : Entry F W)
      (h : Handler F W)
      → Held entry entries
      → ((other : Entry F W) → Held other entries → other.0 ≡ entry.0 → other ≡ entry)
      → entry.0 ≡ type_uri doc
      → entry.1 doc ≡ ok h
      → dispatch_or_reject entries doc id ≡ ok h

module _ (F : Framework) (J : Serializers) (P : Payloads F J) (R : Repository)
    (D : Dispatching F R.Store P.type_uri) (fresh : String) (evaluated_at : ℕ) where
  open F use {Document}

  abbrev pub on_recognition : Entry F R.Store
  on_recognition = (
    P.recognition,
    λ doc. P.key_payload P.recognition doc >>= λ p.
        ok (handle_recognition F J R fresh evaluated_at doc p),
  )

  abbrev pub on_authorization : Entry F R.Store
  on_authorization = (
    P.authorization,
    λ doc. P.key_payload P.authorization doc >>= λ p.
        ok (handle_authorization F J R fresh evaluated_at doc p),
  )

  abbrev pub build_dispatcher : List (Entry F R.Store)
  build_dispatcher =
      on_recognition
      ∷ on_authorization
      ∷ (
        P.record_create,
        λ doc. P.write_payload P.record_create doc >>= λ p. ok (handle_create F J R fresh doc p),
      )
      ∷ (
        P.record_update,
        λ doc. P.write_payload P.record_update doc >>= λ p. ok (handle_update F J R fresh doc p),
      )
      ∷ (
        P.record_delete,
        λ doc. P.key_payload P.record_delete doc >>= λ p. ok (handle_delete F J R fresh doc p),
      )
      ∷ (
        P.record_read,
        λ doc. P.key_payload P.record_read doc >>= λ p. ok (handle_read F J R fresh doc p),
      )
      ∷ (P.record_list, λ doc. P.list_payload doc >>= λ p. ok (handle_list F J R fresh doc))
      ∷ []

  abbrev pub build_query_dispatcher : List (Entry F R.Store)
  build_query_dispatcher = on_recognition ∷ on_authorization ∷ []

  abbrev pub run : Result F.ErrorResponse (Handler F R.Store) → Handler F R.Store
  run (err error_response) s = (err error_response, s)
  run (ok future) s = future s

  unfoldable pub handle_document : List (Entry F R.Store) → Document → Handler F R.Store
  handle_document dispatcher doc = run (D.dispatch_or_reject dispatcher doc fresh)

  module _ (N : Slots) (IsReady : R.Store → Type 0) (view : R.Store → View)
      (C : Contract R N IsReady view) (doc : Document) (s : R.Store) (ready : IsReady s) where
    abbrev left_by : Result String (Handler F R.Store) → R.Store
    left_by (err e) = s
    left_by (ok h) = (h s).1

    -- A handler that parsed its payload left the store as it was.
    kept :
        (parsed : Result String KeyPayload) (handler : KeyPayload → Handler F R.Store)
        (h : Handler F R.Store)
        → ((p : KeyPayload) → (handler p s).1 ≡ s)
        → (parsed >>= λ p. ok (handler p)) ≡ ok h
        → (h s).1 ≡ s
    kept (err e) handler h keeps e' = ground (arith, e')
    kept (ok p) handler h keeps e = sym (ap left_by e) ∙ keeps p

    chosen_kept :
        (entry : Entry F R.Store) (h : Handler F R.Store)
        → Held entry build_query_dispatcher
        → entry.1 doc ≡ ok h
        → (h s).1 ≡ s
    chosen_kept entry h held made = elim held [
      | inl first ↦
          kept (P.key_payload P.recognition doc) (handle_recognition F J R fresh evaluated_at doc) h
            (λ p.
              ap (λ x. x.1)
                (handle_recognition-view F J R N IsReady view C fresh evaluated_at doc p s ready).0)
            (ap (λ (x : Entry F R.Store). x.1 doc) first ∙ made)
      | inr (inl second) ↦
          kept (P.key_payload P.authorization doc)
            (handle_authorization F J R fresh evaluated_at doc) h
            (λ p.
              ap (λ x. x.1)
                (handle_authorization-view F J R N IsReady view C fresh evaluated_at doc p s
                  ready).0)
            (ap (λ (x : Entry F R.Store). x.1 doc) second ∙ made)
      | inr (inr none_) ↦ absurd none_
    ]

    -- The read-only dispatcher leaves a ready store as it is, whatever document arrives.
    pub handle_document-IsReadOnly : (handle_document build_query_dispatcher doc s).1 ≡ s
    unfolding handle_document
    handle_document-IsReadOnly =
        elim (Result-cases (D.dispatch_or_reject build_query_dispatcher doc fresh)) [
          | inl refused ↦ simp refused.1
          | inr chosen ↦
              let run_by = D.picks build_query_dispatcher doc fresh chosen.0 chosen.1 in
              rw chosen.1 (chosen_kept run_by.0 chosen.0 run_by.1 run_by.2)
        ]

    -- A document of the authorization type whose payload parses is answered by the authorization
    -- handler.
    pub handle_document-authorization :
        (p : KeyPayload)
        → P.type_uri doc ≡ P.authorization
        → P.key_payload P.authorization doc ≡ ok p
        → handle_document build_query_dispatcher doc
          ≡ handle_authorization F J R fresh evaluated_at doc p
    unfolding handle_document
    handle_document-authorization p typed parsed = ap run (
        D.finds build_query_dispatcher doc fresh on_authorization
          (handle_authorization F J R fresh evaluated_at doc p) (inr (inl refl))
          (λ other held same. elim held [
            | inl first ↦ absurd (P.apart (ap (λ (x : Entry F R.Store). x.0) first ∙ same))
            | inr (inl second) ↦ sym second
            | inr (inr none_) ↦ absurd none_
          ])
          (sym typed)
          (ap (λ o. o >>= λ p. ok (handle_authorization F J R fresh evaluated_at doc p)) parsed))
