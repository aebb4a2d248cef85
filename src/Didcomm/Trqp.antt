-- ===== src/Didcomm/Trqp.antt =====
-- trust-registry/src/didcomm/handlers/trqp/mod.rs: the two queries over DIDComm. Conversions to and
-- from JSON, the packing of a message and its delivery are given; errors are their texts.
pub mod Agreement
use trust_registry_build_pip.Base.{
  ℕ, String, Bool, Option, none, some, Result, ok, err, map_err, ◌>>=◌, ◌==◌, string_eq,
  if◌then◌else◌, format, List, [], ◌∷◌, contains,
}
use trust_registry_build_pip.Domain.Json.{Value, Fields, string, object, end, insert}
use trust_registry_build_pip.Domain.Record.{TrustRecord, none_authorized, none_recognized}
use trust_registry_build_pip.Domain.Key.{TrustRecordQuery}
use trust_registry_build_pip.Storage.Repository.{RepositoryError, error_to_string, Repository}
use trust_registry_build_pip.Http.Trqp.{authorized_message, recognized_message}

abbrev pub query_authorization_message_type : String
query_authorization_message_type =
    "https://affinidi.com/didcomm/protocols/trqp/1.0/query-authorization"

abbrev pub query_recognition_message_type : String
query_recognition_message_type = "https://affinidi.com/didcomm/protocols/trqp/1.0/query-recognition"

abbrev pub supported_inbound_message_types : List String
supported_inbound_message_types =
    query_authorization_message_type ∷ query_recognition_message_type ∷ []

pub record Message : Type 0 where
  pub typ : String
  pub body : Value

pub record OutputMessage : Type 0 where
  pub id : String
  pub typ : String
  pub body : Value
  pub from : String
  pub to : String

-- The DIDs of the profile and of the sender, and whether the profile names a mediator.
pub record HandlerContext : Type 0 where
  pub profile_did : String
  pub sender_did : String
  pub mediator : Option String

pub record Services : Type 0 where
  pub rfc3339 : ℕ → String
  pub parse_query : Value → Result String TrustRecordQuery
  pub record_to_value : TrustRecord → Result String Value
  pub pack_encrypted : OutputMessage → Result String String
  pub forward_and_send_message : String → String → Result String (Unit {0})

-- What was handed to the mediator, with the outcome that is only logged.
pub record Sent : Type 0 where
  pub message : OutputMessage
  pub outcome : Result String (Unit {0})

module _ (X : Services) where
  abbrev pub filtered : Bool → TrustRecord → TrustRecord
  filtered is_authorization tr = if is_authorization then none_recognized tr else none_authorized tr

  abbrev pub message_text : Bool → TrustRecord → String
  message_text is_authorization tr =
      if is_authorization then authorized_message tr else recognized_message tr

  abbrev pub with_fields : String → String → String → Value → Value
  with_fields time_requested time_evaluated text (object obj) = object (
      insert
        (insert (insert obj "time_requested" (string time_requested)) "time_evaluated"
          (string time_evaluated))
        "message" (string text))
  with_fields time_requested time_evaluated text body = body

  unfoldable pub output_body : ℕ → ℕ → Bool → Option TrustRecord → Result String Value
  output_body requested_at evaluated_at is_authorization none = ok (object end)
  output_body requested_at evaluated_at is_authorization (some record_) =
      let tr = filtered is_authorization record_ in
      X.record_to_value tr >>= λ body. ok (
        with_fields (X.rfc3339 requested_at) (X.rfc3339 evaluated_at)
          (message_text is_authorization tr) body)

  -- The forwarding, and the `?` on a profile without a mediator.
  abbrev pub forward : OutputMessage → Option String → String → Result String Sent
  forward message none packed = err "Mediator not configured"
  forward message (some mediator) packed =
      ok (record { message = message; outcome = X.forward_and_send_message mediator packed })

  unfoldable pub reply_with : HandlerContext → String → String → Value → Result String Sent
  reply_with ctx message_id typ body =
      let message : OutputMessage = record {
        id = message_id;
        typ = typ;
        body = body;
        from = ctx.profile_did;
        to = ctx.sender_did;
      } in
      X.pack_encrypted message >>= forward message ctx.mediator

  module _ (R : Repository) (requested_at evaluated_at : ℕ) (message_id : String) where
    abbrev pub answer_query :
        Bool → Result RepositoryError (Option TrustRecord) → Result String Value
    answer_query is_authorization found =
        map_err error_to_string found >>= output_body requested_at evaluated_at is_authorization

    abbrev pub handle_query :
        HandlerContext
        → String
        → Result String TrustRecordQuery
        → R.Store
        → Result String Sent × R.Store
    handle_query ctx typ (err e) s = (err e, s)
    handle_query ctx typ (ok query) s =
        let (found, s') = R.find_by_query query s in
        (
          answer_query (typ == query_authorization_message_type) found
              >>= reply_with ctx message_id (format (typ ∷ "/response" ∷ [])),
          s',
        )

    unfoldable pub handle : HandlerContext → Message → R.Store → Result String Sent × R.Store
    unfolding output_body reply_with
    handle ctx message s = handle_query ctx message.typ (X.parse_query message.body) s
