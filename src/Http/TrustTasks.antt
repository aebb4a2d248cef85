-- ===== src/Http/TrustTasks.antt =====
-- trust-registry/src/http/handlers/trust_tasks/mod.rs: `POST /trust-tasks`. The checks and the status
-- of an error code are those of the framework's crates. The dispatcher is the one that is live when the
-- document arrives: that for queries of the capability set.
pub mod Live
use trust_registry_build_pip.Base.{
  ℕ, String, ◌&&◌, Result, ok, err, ◌≡◌, ◌≤◌, ◌<◌, leb, ltb, refl, ap, arith, List, if◌then◌else◌,
  format, [], ◌∷◌,
}
use trust_registry_build_pip.Domain.Json.{Value, string, object, field, end}
use trust_registry_build_pip.Storage.Repository.{Repository}
use trust_registry_build_pip.TrustTasks.Framework.{Framework, RejectReason, TaskOutcome}
use trust_registry_build_pip.TrustTasks.Router.{Serializers}
use trust_registry_build_pip.TrustTasks.Router.Dispatch.{
  Payloads, Entry, Dispatching, handle_document,
}

-- An HTTP response: its status and its JSON body.
pub record Response : Type 0 where
  pub status : ℕ
  pub body : Value

pub record Binding (F : Framework) : Type 0 where
  pub parse : String → Result String F.Document
  pub resolve_parties : String → F.Document → Result RejectReason (Unit {0})
  pub validate_basic : ℕ → String → F.Document → Result RejectReason (Unit {0})
  pub status_for_code : F.ErrorResponse → ℕ
  pub error_to_value : F.ErrorResponse → Result String Value
  pub document_to_value : F.Document → Result String Value

-- `StatusCode::from_u16`, which takes three digits, with `unwrap_or(BAD_REQUEST)`
abbrev pub from_u16 : ℕ → ℕ
from_u16 code = if leb 100 code && ltb code 1000 then code else 400

from_u16-bounds : (code : ℕ) → (100 ≤ from_u16 code) × (from_u16 code < 1000)
from_u16-bounds code = ground arith

-- `unwrap_or_else(|_| json!({}))`
abbrev pub or_empty : Result String Value → Value
or_empty (err e) = object end
or_empty (ok value) = value

module _ (F : Framework) (B : Binding F) where
  open F use {Document, ErrorResponse, reject_with}

  unfoldable pub error_response : ErrorResponse → Response
  error_response e = record {
    status = from_u16 (B.status_for_code e);
    body = or_empty (B.error_to_value e);
  }

  abbrev pub malformed : String → Response
  malformed e = record {
    status = 400;
    body = object (
        field "code" (string "malformedRequest")
          (field "message" (string (format ("invalid Trust Task document: " ∷ e ∷ []))) end));
  }

  abbrev pub answer : TaskOutcome F → Response
  answer (ok response) = record { status = 200; body = or_empty (B.document_to_value response) }
  answer (err e) = error_response e

  module _ (J : Serializers) (P : Payloads F J) (R : Repository)
      (D : Dispatching F R.Store P.type_uri) (query_dispatcher : List (Entry F R.Store))
      (fresh my_vid : String) (now : ℕ) where
    abbrev respond_to : TaskOutcome F × R.Store → Response × R.Store
    respond_to (outcome, s) = (answer outcome, s)

    -- The next check, unless this one refused the document.
    abbrev pub checked :
        Document
        → Result RejectReason (Unit {0})
        → (R.Store → Response × R.Store)
        → R.Store
        → Response × R.Store
    checked doc (err reason) next s = (error_response (reject_with doc fresh reason), s)
    checked doc (ok _) next s = next s

    abbrev pub handle_parsed : Result String Document → R.Store → Response × R.Store
    handle_parsed (err e) s = (malformed e, s)
    handle_parsed (ok doc) s =
        checked doc (B.resolve_parties my_vid doc)
          (checked doc (B.validate_basic now my_vid doc)
            (λ s. respond_to (handle_document F J P R D fresh now query_dispatcher doc s)))
          s

    unfoldable pub handle_trust_task : String → R.Store → Response × R.Store
    handle_trust_task body s = handle_parsed (B.parse body) s

    -- A document that the checks let through gets the answer of the dispatcher.
    pub handle_trust_task-dispatched :
        (body : String) (doc : Document) (s s' : R.Store) (response : Document)
        → B.parse body ≡ ok doc
        → B.resolve_parties my_vid doc ≡ ok tt
        → B.validate_basic now my_vid doc ≡ ok tt
        → handle_document F J P R D fresh now query_dispatcher doc s ≡ (ok response, s')
        → handle_trust_task body s ≡ (answer (ok response), s')
    unfolding handle_trust_task
    handle_trust_task-dispatched body doc s s' response parsed parties fresh_ dispatched =
        simp (parsed, parties, fresh_) (ap respond_to dispatched)

    module _ (s : R.Store)
        (keeps : (doc : Document)
          → (handle_document F J P R D fresh now query_dispatcher doc s).1 ≡ s) where
      -- The store is as it was, and the status is a valid code.
      abbrev IsSafe : Response × R.Store → Type 0
      IsSafe response = (response.1 ≡ s) × (100 ≤ response.0.status) × (response.0.status < 1000)

      error-IsSafe : (e : ErrorResponse) → IsSafe (error_response e, s)
      unfolding error_response
      error-IsSafe e =
          let bounds = from_u16-bounds (B.status_for_code e) in (refl, bounds.0, bounds.1)

      checked-IsSafe :
          (doc : Document) (check : Result RejectReason (Unit {0}))
          (next : R.Store → Response × R.Store)
          → IsSafe (next s)
          → IsSafe (checked doc check next s)
      checked-IsSafe doc (err reason) next safe = error-IsSafe (reject_with doc fresh reason)
      checked-IsSafe doc (ok _) next safe = safe

      answer-IsSafe : (outcome : TaskOutcome F) → IsSafe (answer outcome, s)
      answer-IsSafe (ok response) = ground arith
      answer-IsSafe (err e) = error-IsSafe e

      abbrev dispatched : Document → TaskOutcome F
      dispatched doc = (handle_document F J P R D fresh now query_dispatcher doc s).0

      parsed-IsSafe : (parsed : Result String Document) → IsSafe (handle_parsed parsed s)
      parsed-IsSafe (err e) = ground arith
      parsed-IsSafe (ok doc) = checked-IsSafe doc (B.resolve_parties my_vid doc) _ (
          checked-IsSafe doc (B.validate_basic now my_vid doc) _
            (keeps doc, (answer-IsSafe (dispatched doc)).1, (answer-IsSafe (dispatched doc)).2))

      -- Over a dispatcher that leaves the store as it is: whatever body is posted, the store stays so,
      -- and the response has a valid status code.
      pub handle_trust_task-IsReadOnly :
          (body : String)
          → let response = handle_trust_task body s in
            (response.1 ≡ s) × (100 ≤ response.0.status) × (response.0.status < 1000)
      unfolding handle_trust_task
      handle_trust_task-IsReadOnly body = parsed-IsSafe (B.parse body)
