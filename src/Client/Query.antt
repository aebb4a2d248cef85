-- ===== src/Client/Query.antt =====
-- trql-client/src/client.rs: the typed query client. Documents, the conversion of payloads and the
-- exchange over a transport are parameters; the id of a request and its time are given.
pub mod Registry
use trust_registry_build_pip.Base.{
  ℕ, String, Bool, true, false, not, ◌&&◌, ◌||◌, Option, none, some, is_some, Result, ok, err,
  map_err, ◌>>=◌, ◌==◌, string_eq, if◌then◌else◌, ◌≡◌, ◌≢◌, refl, ap, ◌∙◌, arith, format, List, [],
  ◌∷◌, Result-cases, Bool-cases, inl, inr,
}
use text.Mathlib.TextEquality.{eq_iff}
use trust_registry_build_pip.Domain.Json.{Value}
use trust_registry_build_pip.Client.Error.{TrqlError, contract, rejected}

abbrev pub error_slug : String
error_slug = "trust-task-error"

-- An instant is a number of seconds.
pub record TrqpQuery : Type 0 where
  pub entity_id : String
  pub authority_id : String
  pub action : String
  pub resource : String
  pub time : Option ℕ
  pub locator : Option String

abbrev pub new_query : String → String → String → String → TrqpQuery
new_query entity_id authority_id action resource = record {
  entity_id = entity_id;
  authority_id = authority_id;
  action = action;
  resource = resource;
  time = none;
  locator = none;
}

abbrev pub at : TrqpQuery → ℕ → TrqpQuery
at q time = record q { time = some time }

abbrev pub with_locator : TrqpQuery → String → TrqpQuery
with_locator q locator = record q { locator = some locator }

abbrev pub has_context : TrqpQuery → Bool
has_context q = is_some q.time || is_some q.locator

pub record QueryContext : Type 0 where
  pub time : Option ℕ
  pub locator : Option String

-- `AuthorizationRequest` and `RecognitionRequest`, which have the same members.
pub record QueryRequest : Type 0 where
  pub entity_id : String
  pub authority_id : String
  pub action : String
  pub resource : String
  pub context : Option QueryContext
  pub ext : Option Value

unfoldable pub request_of : TrqpQuery → QueryRequest
request_of q = record {
  entity_id = q.entity_id;
  authority_id = q.authority_id;
  action = q.action;
  resource = q.resource;
  context = if has_context q then some (record { time = q.time; locator = q.locator }) else none;
  ext = none;
}

-- `TrustTask<Value>` of `trust_tasks_rs`
pub record TrustTask : Type 0 where
  pub id : String
  pub type_uri : String
  pub payload : Value
  pub thread_id : Option String
  pub issuer : Option String
  pub recipient : Option String
  pub issued_at : Option ℕ

pub record ErrorPayload : Type 0 where
  pub code : String
  pub retryable : Bool
  pub retry_after : Option ℕ
  pub message : Option String

-- What the client uses of `trust_tasks_rs` and of `Debug`.
pub record Crate : Type 0 where
  pub new : String → String → Value → TrustTask
  pub slug : String → String
  pub is_response : String → Bool
  pub parse_error : Value → Result String ErrorPayload
  pub debug : Option String → String

-- One exchange over a transport, and the world that it leaves.
abbrev pub Exchange : Type 0 → Type 0
Exchange W = TrustTask → W → Result TrqlError TrustTask × W

pub record TrqlClient : Type 0 where
  pub registry_did : String
  pub client_did : Option String

abbrev pub new_client : String → TrqlClient
new_client registry_did = record { registry_did = registry_did; client_did = none }

abbrev pub with_client_did : TrqlClient → String → TrqlClient
with_client_did client did = record client { client_did = some did }

module _ (X : Crate) where
  -- The request document of `send_query`
  unfoldable pub request_document : TrqlClient → String → ℕ → String → Value → TrustTask
  request_document client id now type_uri body = record (X.new id type_uri body) {
    recipient = some client.registry_did;
    issuer = client.client_did;
    issued_at = some now;
  }

  module _ {Resp : Type 0} (parse : Value → Result String Resp) where
    abbrev pub thread_is : Option String → String → Bool
    thread_is none id = false
    thread_is (some thread) id = thread == id

    abbrev pub reject : Result String ErrorPayload → Result TrqlError Resp
    reject (err e) = err (contract (format ("trust-task-error payload did not parse: " ∷ e ∷ [])))
    reject (ok error) = err (rejected error.code error.retryable error.retry_after error.message)

    -- What `send_query` does with a reply.
    unfoldable pub read_reply : String → String → TrustTask → Result TrqlError Resp
    read_reply id request_slug reply =
        if not (thread_is reply.thread_id id)
        then err (
            contract (
              format (
                "uncorrelated reply: threadId "
                ∷ X.debug reply.thread_id
                ∷ " does not match request id "
                ∷ id
                ∷ [])))
        else if X.slug reply.type_uri == error_slug
        then reject (X.parse_error reply.payload)
        else if not (X.is_response reply.type_uri && X.slug reply.type_uri == request_slug)
        then err (
            contract (
              format (
                "unexpected reply type `" ∷ reply.type_uri ∷ "` to a `" ∷ request_slug ∷ "` request"
                ∷ [])))
        else map_err (λ e. contract (format ("response payload did not parse: " ∷ e ∷ [])))
            (parse reply.payload)

    module _ {W : Type 0} (exchange : Exchange W) (client : TrqlClient) (id : String)
        (now : ℕ) where
      abbrev pub replied : String → Result TrqlError TrustTask × W → Result TrqlError Resp × W
      replied request_slug (reply, w) = (reply >>= read_reply id request_slug, w)

      -- The exchange, once the payload is serialized.
      abbrev pub send_body : String → Result String Value → W → Result TrqlError Resp × W
      send_body type_uri (err e) w =
          (err (contract (format ("request payload did not serialize: " ∷ e ∷ []))), w)
      send_body type_uri (ok body) w =
          let request = request_document client id now type_uri body in
          replied (X.slug request.type_uri) (exchange request w)

      unfoldable pub send_query : String → Result String Value → W → Result TrqlError Resp × W
      unfolding request_document read_reply
      send_query type_uri body w = send_body type_uri body w

    -- What passed when the guards gave the answer.
    passed :
        (a b c d : Bool) (e1 e2 : TrqlError) (error : Result String ErrorPayload)
        (f : String → TrqlError) (parsed : Result String Resp) (resp : Resp)
        → (if not a
            then err e1
            else if b
            then reject error
            else if not (c && d)
            then err e2
            else map_err f parsed)
          ≡ ok resp
        → (a ≡ true) × (b ≡ false) × (c ≡ true) × (d ≡ true) × (parsed ≡ ok resp)
    passed true false true true e1 e2 error f (ok r) resp e = ground (arith, e)
    passed true false true true e1 e2 error f (err r) resp e = ground (arith, e)
    passed true false true false e1 e2 error f parsed resp e = ground (arith, e)
    passed true false false d e1 e2 error f parsed resp e = ground (arith, e)
    passed true true c d e1 e2 (ok p) f parsed resp e = ground (arith, e)
    passed true true c d e1 e2 (err m) f parsed resp e = ground (arith, e)
    passed false b c d e1 e2 error f parsed resp e = ground (arith, e)

    thread_is-some : (o : Option String) (id : String) → thread_is o id ≡ true → o ≡ some id
    thread_is-some none id e = ground (arith, e)
    thread_is-some (some t) id e = ap some ((eq_iff t id).0 e)

    -- A reply is taken as the answer only if its thread is the id of the request, its type is the
    -- response type of the request, not the error type, and its payload parses as the answer.
    pub read_reply-IsCorrelated :
        (id request_slug : String) (reply : TrustTask) (resp : Resp)
        → read_reply id request_slug reply ≡ ok resp
        → (reply.thread_id ≡ some id)
          × (X.is_response reply.type_uri ≡ true)
          × (X.slug reply.type_uri ≡ request_slug)
          × (request_slug ≢ error_slug)
          × (parse reply.payload ≡ ok resp)
    unfolding read_reply
    read_reply-IsCorrelated id request_slug reply resp e =
        let ok_by = passed _ _ _ _ _ _ _ _ _ resp e in
        let same = (eq_iff (X.slug reply.type_uri) request_slug).0 ok_by.3 in
        (
          thread_is-some reply.thread_id id ok_by.0,
          ok_by.2,
          same,
          λ bad.
              ground (arith, ok_by.1, (eq_iff (X.slug reply.type_uri) error_slug).1 (same ∙ bad)),
          ok_by.4,
        )

    -- A correlated reply of the response type whose payload parses is taken as the answer.
    pub read_reply-answer :
        (id request_slug : String) (reply : TrustTask) (resp : Resp)
        → reply.thread_id ≡ some id
        → X.is_response reply.type_uri ≡ true
        → X.slug reply.type_uri ≡ request_slug
        → request_slug ≢ error_slug
        → parse reply.payload ≡ ok resp
        → read_reply id request_slug reply ≡ ok resp
    unfolding read_reply
    read_reply-answer id request_slug reply resp thread response same other parses =
        let ours = (eq_iff id id).1 refl in
        let slugs = (eq_iff request_slug request_slug).1 refl in
        let apart : request_slug == error_slug ≡ false =
          elim (Bool-cases (request_slug == error_slug)) [
            | inl bad ↦ absurd (other ((eq_iff request_slug error_slug).0 bad))
            | inr good ↦ good
          ] in
        simp (thread, ours, same, apart, response, slugs, parses)
