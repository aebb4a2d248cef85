-- ===== src/TrustTasks/Router.antt =====
-- trust-registry/src/trust_tasks/router.rs: the handlers behind the dispatcher. Payload and response
-- types of the generated specs are records; their conversion to and from JSON is a parameter.
pub mod Queries
pub mod Writes
pub mod Dispatch
use trust_registry_build_pip.Base.{
  ℕ, String, Bool, true, false, Option, none, some, Result, ok, err, unwrap_or, map_err, ◌>>=◌,
  format, List, [], ◌∷◌,
}
use mathlib.Core.Option
use trust_registry_build_pip.Domain.Json.{Value}
use trust_registry_build_pip.Domain.Record.{TrustRecord, is_recognized, is_authorized}
use trust_registry_build_pip.Domain.Key.{TrustRecordQuery, query_new}
use trust_registry_build_pip.Storage.Repository.{
  RepositoryError, connection_failed, query_failed, serialization_failed, record_not_found,
  record_already_exists, validation_error, lock_poisoned, TrustRecordList, Repository,
}
use trust_registry_build_pip.TrustTasks.Framework.{
  Framework, RejectReason, malformed_request, task_failed, internal_error, TaskOutcome, Handler,
}

unfoldable pub map_repo_err : RepositoryError → RejectReason
map_repo_err (validation_error reason) = malformed_request reason
map_repo_err (record_not_found reason) = task_failed reason
map_repo_err (record_already_exists reason) = task_failed reason
map_repo_err (connection_failed reason) = internal_error reason
map_repo_err (query_failed reason) = internal_error reason
map_repo_err (serialization_failed reason) = internal_error reason
map_repo_err lock_poisoned = internal_error "lock poisoned"

-- The four identifiers that query, read and delete payloads carry, with `context.time`.
pub record KeyPayload : Type 0 where
  pub entity_id : String
  pub authority_id : String
  pub action : String
  pub resource : String
  pub time : Option ℕ

unfoldable pub query_of : KeyPayload → TrustRecordQuery
unfolding query_new
query_of p = query_new p.entity_id p.authority_id p.action p.resource

-- `RecognitionResponse` and `AuthorizationResponse`, which differ in the name of `answer`.
pub record QueryResponse : Type 0 where
  pub entity_id : String
  pub authority_id : String
  pub action : String
  pub resource : String
  pub answer : Bool
  pub time_evaluated : ℕ
  pub time_requested : Option ℕ
  pub context : Option Value
  pub ext : Option Value
  pub message : Option String

pub record WriteResponse : Type 0 where
  pub is_ok : Bool
  pub message : Option String
  pub ext : Option Value

pub record Serializers : Type 1 where
  pub recognition_to_value : QueryResponse → Result String Value
  pub authorization_to_value : QueryResponse → Result String Value
  pub write_to_value : WriteResponse → Result String Value
  pub SpecRecord : Type 0
  pub from_spec : SpecRecord → Result String TrustRecord
  pub ReadResponse : Type 0
  pub to_read_response : TrustRecord → Result String ReadResponse
  pub read_to_value : ReadResponse → Result String Value
  pub ListResponse : Type 0
  pub to_list_response : TrustRecordList → Result String ListResponse
  pub list_to_value : ListResponse → Result String Value

module _ (F : Framework) (J : Serializers) (R : Repository) where
  open F use {Document, ErrorResponse, reject_with, respond_with}
  open J use {SpecRecord, ReadResponse, ListResponse}
  open R use {Store}

  abbrev pub respond :
      {T : Type 0} → (T → Result String Value) → String → Document → T → TaskOutcome F
  respond to_value fresh doc payload = elim (to_value payload) [
    | ok value ↦ ok (respond_with doc fresh value)
    | err e ↦ err (reject_with doc fresh (internal_error e))
  ]

  abbrev recognized_message : TrustRecord → String
  recognized_message tr = format (tr.entity_id ∷ " recognized by " ∷ tr.authority_id ∷ [])

  abbrev authorized_message : TrustRecord → String
  authorized_message tr = format (
      tr.entity_id ∷ " authorized to " ∷ tr.action ∷ "+" ∷ tr.resource ∷ " by " ∷ tr.authority_id
      ∷ [])

  unfoldable pub recognition_response : ℕ → KeyPayload → Option TrustRecord → QueryResponse
  recognition_response evaluated_at p found = record {
    entity_id = p.entity_id;
    authority_id = p.authority_id;
    action = p.action;
    resource = p.resource;
    answer = unwrap_or (Option.map is_recognized found) false;
    time_evaluated = evaluated_at;
    time_requested = p.time;
    context = none;
    ext = none;
    message = Option.map recognized_message found;
  }

  unfoldable pub handle_recognition : String → ℕ → Document → KeyPayload → Handler F Store
  handle_recognition fresh evaluated_at doc p s =
      let (found, s') = R.find_by_query (query_of p) s in
      (
        elim found [
          | ok record_ ↦
              respond J.recognition_to_value fresh doc (recognition_response evaluated_at p record_)
          | err e ↦ err (reject_with doc fresh (map_repo_err e))
        ],
        s',
      )

  unfoldable pub authorization_response : ℕ → KeyPayload → Option TrustRecord → QueryResponse
  authorization_response evaluated_at p found = record {
    entity_id = p.entity_id;
    authority_id = p.authority_id;
    action = p.action;
    resource = p.resource;
    answer = unwrap_or (Option.map is_authorized found) false;
    time_evaluated = evaluated_at;
    time_requested = p.time;
    context = none;
    ext = none;
    message = Option.map authorized_message found;
  }

  unfoldable pub handle_authorization : String → ℕ → Document → KeyPayload → Handler F Store
  handle_authorization fresh evaluated_at doc p s =
      let (found, s') = R.find_by_query (query_of p) s in
      (
        elim found [
          | ok record_ ↦
              respond J.authorization_to_value fresh doc
                (authorization_response evaluated_at p record_)
          | err e ↦ err (reject_with doc fresh (map_repo_err e))
        ],
        s',
      )

  unfoldable pub record_from_payload :
      String → Document → SpecRecord → Result ErrorResponse TrustRecord
  record_from_payload fresh doc spec =
      map_err (λ reason. reject_with doc fresh (malformed_request reason)) (J.from_spec spec)

  abbrev pub done : WriteResponse
  done = record { is_ok = true; message = none; ext = none }

  abbrev pub answer_write : String → Document → Result RepositoryError (Unit {0}) → TaskOutcome F
  answer_write fresh doc (ok _) = respond J.write_to_value fresh doc done
  answer_write fresh doc (err e) = err (reject_with doc fresh (map_repo_err e))

  -- The `?` on the parsed record, and the call of the repository.
  abbrev pub write_parsed :
      (TrustRecord → Store → Result RepositoryError (Unit {0}) × Store)
      → String
      → Document
      → Result ErrorResponse TrustRecord
      → Handler F Store
  write_parsed write fresh doc (err e) s = (err e, s)
  write_parsed write fresh doc (ok record_) s =
      let (outcome, s') = write record_ s in (answer_write fresh doc outcome, s')

  unfoldable pub handle_create : String → Document → SpecRecord → Handler F Store
  unfolding record_from_payload
  handle_create fresh doc spec s =
      write_parsed R.create fresh doc (record_from_payload fresh doc spec) s

  unfoldable pub handle_update : String → Document → SpecRecord → Handler F Store
  unfolding record_from_payload
  handle_update fresh doc spec s =
      write_parsed R.update fresh doc (record_from_payload fresh doc spec) s

  unfoldable pub handle_delete : String → Document → KeyPayload → Handler F Store
  handle_delete fresh doc p s =
      let (outcome, s') = R.delete (query_of p) s in (answer_write fresh doc outcome, s')

  abbrev reserialized :
      {A B : Type 0}
      → (A → Result String B)
      → (B → Result String Value)
      → String
      → Document
      → Result RepositoryError A
      → TaskOutcome F
  reserialized convert to_value fresh doc (err e) = err (reject_with doc fresh (map_repo_err e))
  reserialized convert to_value fresh doc (ok a) = elim (convert a) [
    | ok response ↦ respond to_value fresh doc response
    | err reason ↦ err (reject_with doc fresh (internal_error reason))
  ]

  unfoldable pub handle_read : String → Document → KeyPayload → Handler F Store
  handle_read fresh doc p s =
      let (outcome, s') = R.read (query_of p) s in
      (reserialized J.to_read_response J.read_to_value fresh doc outcome, s')

  unfoldable pub handle_list : String → Document → Handler F Store
  handle_list fresh doc s =
      let (outcome, s') = R.list s in
      (reserialized J.to_list_response J.list_to_value fresh doc outcome, s')
