-- ===== src/Client/Query/Registry.antt =====
-- The client over a transport that hands its documents to the registry's read-only dispatcher.
use trust_registry_build_pip.Base.{
  ℕ, String, true, none, some, Result, ok, err, ◌≡◌, ◌≢◌, ◌↔◌, refl, sym, ap, ◌∙◌, string_eq,
}
use trust_registry_build_pip.Domain.Json.{Value}
use trust_registry_build_pip.Domain.Record.{TrustRecord}
use trust_registry_build_pip.Domain.Key.{from_query}
use trust_registry_build_pip.Storage.Repository.{Repository, View, Contract, Slots}
use trust_registry_build_pip.TrustTasks.Framework.{Framework, TaskOutcome}
use trust_registry_build_pip.TrustTasks.Router.{
  KeyPayload, QueryResponse, Serializers, query_of, authorization_response, respond,
}
use trust_registry_build_pip.TrustTasks.Router.Queries.{handle_authorization-view}
use trust_registry_build_pip.TrustTasks.Router.Dispatch.{
  Payloads, Dispatching, build_query_dispatcher, handle_document, handle_document-authorization,
}
use trust_registry_build_pip.Client.Error.{TrqlError}
use trust_registry_build_pip.Client.Query.{
  Crate, TrustTask, TrqpQuery, QueryRequest, TrqlClient, Exchange, request_of, request_document,
  read_reply, read_reply-answer, send_query, error_slug,
}

-- The payload that the registry reads from a request.
abbrev pub key_of : QueryRequest → KeyPayload
key_of request = record {
  entity_id = request.entity_id;
  authority_id = request.authority_id;
  action = request.action;
  resource = request.resource;
  time = elim request.context [ none ↦ none | some context ↦ context.time ];
}

-- The documents of both sides are the same: how the registry sees a document that was sent, and how
-- the client sees what the registry returns.
pub record Wire (X : Crate) (F : Framework) (J : Serializers) (P : Payloads F J) : Type 0 where
  pub inbound : TrustTask → F.Document
  pub outbound : F.Document → TrustTask
  pub outbound_error : F.ErrorResponse → TrustTask
  pub request_to_value : QueryRequest → Result String Value
  pub parse_response : Value → Result String QueryResponse
  pub new_type : (id uri : String) (v : Value) → (X.new id uri v).type_uri ≡ uri
  pub new_id : (id uri : String) (v : Value) → (X.new id uri v).id ≡ id
  pub inbound_type : (d : TrustTask) → P.type_uri (inbound d) ≡ d.type_uri
  -- `respond_with` threads the response to the request and gives it the response type.
  pub response_thread :
      (d : TrustTask) (fresh : String) (v : Value)
      → (outbound (F.respond_with (inbound d) fresh v)).thread_id ≡ some d.id
  pub response_payload :
      (d : TrustTask) (fresh : String) (v : Value)
      → (outbound (F.respond_with (inbound d) fresh v)).payload ≡ v
  pub response_slug :
      (d : TrustTask) (fresh : String) (v : Value)
      → X.slug (outbound (F.respond_with (inbound d) fresh v)).type_uri ≡ X.slug d.type_uri
  pub response_type :
      (d : TrustTask) (fresh : String) (v : Value)
      → X.is_response (outbound (F.respond_with (inbound d) fresh v)).type_uri ≡ true
  pub authorization_slug : X.slug P.authorization ≢ error_slug
  -- The generated types convert to JSON and back.
  pub request_value : (q : QueryRequest) → (v : Value) × (request_to_value q ≡ ok v)
  pub request_read :
      (q : QueryRequest) (d : TrustTask)
      → request_to_value q ≡ ok d.payload
      → P.key_payload P.authorization (inbound d) ≡ ok (key_of q)
  pub new_payload : (id uri : String) (v : Value) → (X.new id uri v).payload ≡ v
  pub response_value :
      (a : QueryResponse)
      → (v : Value) × (J.authorization_to_value a ≡ ok v) × (parse_response v ≡ ok a)

module _ (X : Crate) (F : Framework) (J : Serializers) (P : Payloads F J) (L : Wire X F J P)
    (R : Repository) (D : Dispatching F R.Store P.type_uri) (fresh : String)
    (evaluated_at : ℕ) where
  abbrev pub reply_of : TaskOutcome F → TrustTask
  reply_of (ok response) = L.outbound response
  reply_of (err e) = L.outbound_error e

  -- The registry's end of the transport
  unfoldable pub registry : Exchange R.Store
  registry request s =
      let (outcome, s') =
        handle_document F J P R D fresh evaluated_at
          (build_query_dispatcher F J P R D fresh evaluated_at) (L.inbound request) s in
      (ok (reply_of outcome), s')

  module _ (N : Slots) (IsReady : R.Store → Type 0) (view : R.Store → View)
      (C : Contract R N IsReady view) (client : TrqlClient) (id : String) (now : ℕ) (q : TrqpQuery)
      (s : R.Store) (ready : IsReady s) where
    abbrev pub asked : KeyPayload
    asked = key_of (request_of q)

    abbrev pub authorization : Result TrqlError QueryResponse × R.Store
    authorization =
        send_query X L.parse_response registry client id now P.authorization
          (L.request_to_value (request_of q)) s

    abbrev request : TrustTask
    request = request_document X client id now P.authorization (L.request_value (request_of q)).0

    abbrev expected : QueryResponse
    expected =
        authorization_response F J R evaluated_at asked (view s (from_query (query_of asked)))

    handled :
        handle_document F J P R D fresh evaluated_at
          (build_query_dispatcher F J P R D fresh evaluated_at)
          (L.inbound request)
          s
        ≡ (respond F J R J.authorization_to_value fresh (L.inbound request) expected, s)
    unfolding request_document
    handled =
        ap (λ (h : R.Store → TaskOutcome F × R.Store). h s)
          (handle_document-authorization F J P R D fresh evaluated_at N IsReady view C
            (L.inbound request) s ready asked
            (L.inbound_type request ∙ L.new_type id P.authorization _)
            (L.request_read (request_of q) request (
              (L.request_value (request_of q)).1
              ∙ ap ok (sym (L.new_payload id P.authorization _)))))
        ∙ (handle_authorization-view F J R N IsReady view C fresh evaluated_at (L.inbound request)
            asked s ready).0

    responded :
        (answer : QueryResponse) (v : Value)
        → J.authorization_to_value answer ≡ ok v
        → respond F J R J.authorization_to_value fresh (L.inbound request) answer
          ≡ ok (F.respond_with (L.inbound request) fresh v)
    responded answer v e = rw (e, respond) refl

    registry-eq :
        (v : Value)
        → J.authorization_to_value expected ≡ ok v
        → registry request s ≡ (ok (L.outbound (F.respond_with (L.inbound request) fresh v)), s)
    unfolding registry
    registry-eq v e = rw (handled, responded expected v e) refl

    reads :
        (v : Value)
        → L.parse_response v ≡ ok expected
        → read_reply X L.parse_response id
            (X.slug request.type_uri)
            (L.outbound (F.respond_with (L.inbound request) fresh v))
          ≡ ok expected
    unfolding request_document
    reads v parses =
        let typed = ap X.slug (L.new_type id P.authorization (L.request_value (request_of q)).0) in
        read_reply-answer X L.parse_response id (X.slug request.type_uri)
          (L.outbound (F.respond_with (L.inbound request) fresh v)) expected
          (L.response_thread request fresh v ∙ ap some (L.new_id id P.authorization _))
          (L.response_type request fresh v) (L.response_slug request fresh v)
          (λ bad. L.authorization_slug (sym typed ∙ bad))
          (ap L.parse_response (L.response_payload request fresh v) ∙ parses)

    -- A client that asks a ready registry for an authorization gets an answer. It is true exactly if
    -- a record stands under the four identifiers and its authorized flag is set and true. The
    -- registry's store stays as it is.
    pub authorization-view :
        (answer : QueryResponse) × (authorization ≡ (ok answer, s))
        × ((answer.answer ≡ true) ↔ (
            (r : TrustRecord) × (view s (from_query (query_of asked)) ≡ some r)
            × (r.authorized ≡ some true)))
    unfolding send_query
    authorization-view =
        let value = L.response_value expected in
        (
          expected,
          rw ((L.request_value (request_of q)).1, registry-eq value.0 value.1)
              (ap (λ o. (o, s)) (reads value.0 value.2)),
          (handle_authorization-view F J R N IsReady view C fresh evaluated_at (L.inbound request)
              asked s ready).1,
        )
