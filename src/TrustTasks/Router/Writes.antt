-- ===== src/TrustTasks/Router/Writes.antt =====
-- Writes of the router and the queries that follow them, over any repository that meets its contract.
use trust_registry_build_pip.Base.{
  ℕ, String, ◌≡◌, refl, ap, ◌∙◌, arith, true, ◌↔◌, Option, none, some, Result, ok, err, map_err,
}
use trust_registry_build_pip.Domain.Json.{Value}
use trust_registry_build_pip.Domain.Record.{TrustRecord}
use trust_registry_build_pip.Domain.Key.{key_eq, from_record, from_query}
use trust_registry_build_pip.Storage.Repository.{
  put_self, RepositoryError, Repository, View, Contract, Slots, FailsWith, already_exists,
  not_found,
}
use trust_registry_build_pip.TrustTasks.Framework.{
  Framework, TaskOutcome, task_failed, malformed_request,
}
use trust_registry_build_pip.TrustTasks.Router.{
  KeyPayload, QueryResponse, query_of, Serializers, respond, record_from_payload, map_repo_err,
  done, answer_write, write_parsed, handle_create, handle_update, handle_delete,
  authorization_response, handle_authorization,
}
use trust_registry_build_pip.TrustTasks.Router.Queries.{handle_authorization-view}

module _ (F : Framework) (J : Serializers) (R : Repository) where
  open F use {Document, reject_with}

  -- An error response whose reason is a failed task.
  abbrev pub TaskFailed : String → Document → TaskOutcome F → Type 0
  TaskFailed fresh doc o = (m : String) × (o ≡ err (reject_with doc fresh (task_failed m)))

  answered :
      {T : Type 0} (to_value : T → Result String Value) (fresh : String) (doc : Document) (x : T)
      (v : Value)
      → to_value x ≡ ok v
      → respond F J R to_value fresh doc x ≡ ok (F.respond_with doc fresh v)
  answered to_value fresh doc x v e = rw (e, respond)

  answer_old :
      (fresh : String) (doc : Document) (o : Result RepositoryError (Unit {0}))
      → FailsWith already_exists o
      → TaskFailed fresh doc (answer_write F J R fresh doc o)
  unfolding map_repo_err
  answer_old fresh doc (ok u) h = elim h [ ]
  answer_old fresh doc (err (RepositoryError.record_already_exists m)) h = (m, refl)
  answer_old fresh doc (err e) h = absurd (ground arith)

  answer_missing :
      (fresh : String) (doc : Document) (o : Result RepositoryError (Unit {0}))
      → FailsWith not_found o
      → TaskFailed fresh doc (answer_write F J R fresh doc o)
  unfolding map_repo_err
  answer_missing fresh doc (ok u) h = elim h [ ]
  answer_missing fresh doc (err (RepositoryError.record_not_found m)) h = (m, refl)
  answer_missing fresh doc (err e) h = absurd (ground arith)

  module _ (fresh : String) (doc : Document) (spec : J.SpecRecord) (r : TrustRecord)
      (parsed : J.from_spec spec ≡ ok r) (s : R.Store) where
    create-eq :
        handle_create F J R fresh doc spec s
        ≡ (answer_write F J R fresh doc (R.create r s).0, (R.create r s).1)
    unfolding handle_create record_from_payload
    create-eq =
        ap
          (λ o.
            write_parsed F J R R.create fresh doc
              (map_err (λ reason. reject_with doc fresh (malformed_request reason)) o) s)
          parsed

    update-eq :
        handle_update F J R fresh doc spec s
        ≡ (answer_write F J R fresh doc (R.update r s).0, (R.update r s).1)
    unfolding handle_update record_from_payload
    update-eq =
        ap
          (λ o.
            write_parsed F J R R.update fresh doc
              (map_err (λ reason. reject_with doc fresh (malformed_request reason)) o) s)
          parsed

  delete-eq :
      (fresh : String) (doc : Document) (p : KeyPayload) (s : R.Store)
      → handle_delete F J R fresh doc p s
        ≡ (answer_write F J R fresh doc (R.delete (query_of p) s).0, (R.delete (query_of p) s).1)
  unfolding handle_delete
  delete-eq fresh doc p s = refl

  module _ (N : Slots) (IsReady : R.Store → Type 0) (view : R.Store → View)
      (C : Contract R N IsReady view) (fresh : String) (doc : Document) (s : R.Store)
      (ready : IsReady s) where
    -- The outcome of a query that arrives in the state that a write left.
    abbrev pub asked : String → ℕ → Document → KeyPayload → R.Store → TaskOutcome F
    asked id t q p s' = (handle_authorization F J R id t q p s').0

    module _ (id : String) (t : ℕ) (q : Document) (p : KeyPayload) where
      asked_stored :
          (s' : R.Store) (o : Option TrustRecord)
          → IsReady s'
          → view s' (from_query (query_of p)) ≡ o
          → asked id t q p s'
            ≡ respond F J R J.authorization_to_value id q (authorization_response F J R t p o)
      asked_stored s' o ready' e =
          ap (λ x. x.0) (handle_authorization-view F J R N IsReady view C id t q p s' ready').0
          ∙ ap
              (λ x.
                respond F J R J.authorization_to_value id q (authorization_response F J R t p x))
              e

      create_then_query-respond :
          (spec : J.SpecRecord) (r : TrustRecord)
          → J.from_spec spec ≡ ok r
          → view s (from_record r) ≡ none
          → from_query (query_of p) ≡ from_record r
          → let after = handle_create F J R fresh doc spec s in
            (after.0 ≡ respond F J R J.write_to_value fresh doc (done F J R))
            × (asked id t q p after.1
                ≡ respond F J R J.authorization_to_value id q
                    (authorization_response F J R t p (some r)))
      create_then_query-respond spec r parsed free same =
          let made = C.create_new r s ready free in
          let stored =
            ap (view (R.create r s).1) same
            ∙ made.2 (from_record r)
            ∙ put_self N (view s) (from_record r) (some r) in
          let eq = create-eq fresh doc spec r parsed s in
          (
            ap (λ x. x.0) eq ∙ ap (answer_write F J R fresh doc) made.0,
            ap (λ x. asked id t q p x.1) eq ∙ asked_stored _ (some r) made.1 stored,
          )

      authorization_response_iff :
          (r : TrustRecord)
          → ((authorization_response F J R t p (some r)).answer ≡ true) ↔ (r.authorized ≡ some true)
      unfolding authorization_response
      authorization_response_iff r = ground arith

      -- On a ready store of a repository that meets its contract, a create of a record that parses and
      -- whose key is free succeeds: it is answered with a document that carries the text of success. An
      -- authorization query for the key is then answered with a document, whose answer is true exactly
      -- if the new record is authorized. The two responses have JSON texts.
      pub create_then_query :
          (spec : J.SpecRecord) (r : TrustRecord) (told : Value)
          → J.from_spec spec ≡ ok r
          → view s (from_record r) ≡ none
          → from_query (query_of p) ≡ from_record r
          → J.write_to_value (record { is_ok = true; message = none; ext = none }) ≡ ok told
          → let after = handle_create F J R fresh doc spec s in
            (after.0 ≡ ok (F.respond_with doc fresh told))
            × (answer : QueryResponse) × ((v : Value)
                → J.authorization_to_value answer ≡ ok v
                → asked id t q p after.1 ≡ ok (F.respond_with q id v))
            × ((answer.answer ≡ true) ↔ (r.authorized ≡ some true))
      create_then_query spec r told parsed free same written =
          let both = create_then_query-respond spec r parsed free same in
          (
            both.0 ∙ answered J.write_to_value fresh doc (done F J R) told written,
            authorization_response F J R t p (some r),
            λ v e.
                both.1
                ∙ answered J.authorization_to_value id q (authorization_response F J R t p (some r))
                    v e,
            authorization_response_iff r,
          )

      -- On a ready store of a repository that meets its contract, an update of a record that
      -- parses and whose key is taken succeeds, and an authorization query for the key is then
      -- answered from the new record.
      pub update_then_query :
          (spec : J.SpecRecord) (r old : TrustRecord)
          → J.from_spec spec ≡ ok r
          → view s (from_record r) ≡ some old
          → from_query (query_of p) ≡ from_record r
          → let after = handle_update F J R fresh doc spec s in
            (after.0 ≡ respond F J R J.write_to_value fresh doc (done F J R))
            × (asked id t q p after.1
                ≡ respond F J R J.authorization_to_value id q
                    (authorization_response F J R t p (some r)))
      update_then_query spec r old parsed taken same =
          let made = C.update_old r old s ready taken in
          let stored =
            ap (view (R.update r s).1) same
            ∙ made.2 (from_record r)
            ∙ put_self N (view s) (from_record r) (some r) in
          let eq = update-eq fresh doc spec r parsed s in
          (
            ap (λ x. x.0) eq ∙ ap (answer_write F J R fresh doc) made.0,
            ap (λ x. asked id t q p x.1) eq ∙ asked_stored _ (some r) made.1 stored,
          )

      -- On a ready store of a repository that meets its contract, a delete of a key that is taken
      -- succeeds, and an authorization query for the key then finds no record.
      pub delete_then_query :
          (old : TrustRecord)
          → view s (from_query (query_of p)) ≡ some old
          → let after = handle_delete F J R fresh doc p s in
            (after.0 ≡ respond F J R J.write_to_value fresh doc (done F J R))
            × (asked id t q p after.1
                ≡ respond F J R J.authorization_to_value id q
                    (authorization_response F J R t p none))
      delete_then_query old taken =
          let made = C.delete_old (query_of p) old s ready taken in
          let stored =
            made.2 (from_query (query_of p)) ∙ put_self N (view s) (from_query (query_of p)) none in
          let eq = delete-eq fresh doc p s in
          (
            ap (λ x. x.0) eq ∙ ap (answer_write F J R fresh doc) made.0,
            ap (λ x. asked id t q p x.1) eq ∙ asked_stored _ none made.1 stored,
          )

    -- On a ready store of a repository that meets its contract, a create of a record that parses
    -- and whose key is taken fails as a task and leaves the store as it is.
    pub create_refused :
        (spec : J.SpecRecord) (r old : TrustRecord)
        → J.from_spec spec ≡ ok r
        → view s (from_record r) ≡ some old
        → let after = handle_create F J R fresh doc spec s in
          TaskFailed fresh doc after.0 × (after.1 ≡ s)
    create_refused spec r old parsed taken =
        let eq = create-eq fresh doc spec r parsed s in
        let (fails, kept) = C.create_old r old s ready taken in
        let (m, told) = answer_old fresh doc (R.create r s).0 fails in
        ((m, ap (λ x. x.0) eq ∙ told), ap (λ x. x.1) eq ∙ kept)

    -- On a ready store of a repository that meets its contract, an update of a record that parses
    -- and whose key is free fails as a task and leaves the store as it is.
    pub update_refused :
        (spec : J.SpecRecord) (r : TrustRecord)
        → J.from_spec spec ≡ ok r
        → view s (from_record r) ≡ none
        → let after = handle_update F J R fresh doc spec s in
          TaskFailed fresh doc after.0 × (after.1 ≡ s)
    update_refused spec r parsed free =
        let eq = update-eq fresh doc spec r parsed s in
        let (fails, kept) = C.update_new r s ready free in
        let (m, told) = answer_missing fresh doc (R.update r s).0 fails in
        ((m, ap (λ x. x.0) eq ∙ told), ap (λ x. x.1) eq ∙ kept)
