-- ===== src/Didcomm/Admin/Messages.antt =====
-- trust-registry/src/didcomm/handlers/admin/messages.rs: what the five admin messages do to the
-- repository. `serde_json::from_value` into the request types is a parameter.
use trust_registry_build_pip.Base.{
  ℕ, suc, String, Bool, Option, none, some, Result, ok, err, map_err, ◌>>=◌, List, [], ◌∷◌,
}
use trust_registry_build_pip.Domain.Json.{
  Value, Items, nil, cons, bool, number, string, array, object, field, end,
}
use trust_registry_build_pip.Domain.RecordType
use trust_registry_build_pip.Domain.RecordType.{RecordType, from_str}
use trust_registry_build_pip.Domain.Record.{TrustRecord, is_recognized, is_authorized}
use trust_registry_build_pip.Domain.Builder
use trust_registry_build_pip.Domain.Builder.{TrustRecordBuilder}
use trust_registry_build_pip.Domain.Key.{TrustRecordQuery, query_new}
use trust_registry_build_pip.Storage.Repository.{
  RepositoryError, error_to_string, TrustRecordList, Repository,
}

-- `CreateRecordRequest` and `UpdateRecordRequest`
pub record RecordRequest : Type 0 where
  pub entity_id : String
  pub authority_id : String
  pub action : String
  pub resource : String
  pub recognized : Bool
  pub authorized : Bool
  pub context : Option Value
  pub record_type : String

-- `DeleteRecordRequest` and `ReadRecordRequest`
pub record KeyRequest : Type 0 where
  pub entity_id : String
  pub authority_id : String
  pub action : String
  pub resource : String

pub record Requests : Type 0 where
  pub parse_create : Value → Result String RecordRequest
  pub parse_update : Value → Result String RecordRequest
  pub parse_delete : Value → Result String KeyRequest
  pub parse_read : Value → Result String KeyRequest

abbrev with_context : Option Value → TrustRecordBuilder → TrustRecordBuilder
with_context none b = b
with_context (some ctx) b = Builder.context b ctx

abbrev pub started : RecordRequest → RecordType → TrustRecordBuilder
started q t =
    Builder.record_type
      (Builder.authorized
        (Builder.recognized
          (Builder.resource
            (Builder.action
              (Builder.authority_id (Builder.entity_id Builder.new q.entity_id) q.authority_id)
              q.action)
            q.resource)
          q.recognized)
        q.authorized)
      t

unfoldable pub record_of : RecordRequest → Result String TrustRecord
record_of q = do
  record_type ← map_err RecordType.error_to_string (from_str q.record_type)
  map_err RecordType.error_to_string
      (Builder.build (with_context q.context (started q record_type)))

abbrev pub key_body : String → String → String → String → Value
key_body entity_id authority_id action resource = object (
    field "entity_id" (string entity_id) (
      field "authority_id" (string authority_id)
        (field "action" (string action) (field "resource" (string resource) end))))

abbrev pub record_body : TrustRecord → Value
record_body r = object (
    field "entity_id" (string r.entity_id) (
      field "authority_id" (string r.authority_id) (
        field "action" (string r.action) (
          field "resource" (string r.resource) (
            field "recognized" (bool (is_recognized r))
              (field "authorized" (bool (is_authorized r)) (field "context" r.context end)))))))

abbrev bodies : List TrustRecord → Items
bodies [] = nil
bodies (r ∷ rs) = cons (record_body r) (bodies rs)

abbrev count : List TrustRecord → ℕ
count [] = 0
count (r ∷ rs) = suc (count rs)

abbrev pub list_body : TrustRecordList → Value
list_body l =
    object
      (field "records" (array (bodies l.records)) (field "count" (number (count l.records)) end))

abbrev pub query_for : KeyRequest → TrustRecordQuery
query_for q = query_new q.entity_id q.authority_id q.action q.resource

-- The body of the answer, or the text of the error.
abbrev pub reply : {A : Type 0} → (A → Value) → Result RepositoryError A → Result String Value
reply body (ok a) = ok (body a)
reply body (err e) = err (error_to_string e)

module _ (R : Repository) (Q : Requests) where
  open R use {Store}

  -- A write of the record that a request asks for; without one the store is not touched.
  abbrev pub write_record :
      (TrustRecord → Store → Result RepositoryError (Unit {0}) × Store)
      → Result String RecordRequest
      → Store
      → Result String Value × Store
  write_record write (err e) s = (err e, s)
  write_record write (ok q) s = elim (record_of q) [
    | err e ↦ (err e, s)
    | ok r ↦
        let (outcome, s') = write r s in
        (reply (λ _. key_body q.entity_id q.authority_id q.action q.resource) outcome, s')
  ]

  unfoldable pub handle_create_record : Value → Store → Result String Value × Store
  handle_create_record body s = write_record R.create (Q.parse_create body) s

  unfoldable pub handle_update_record : Value → Store → Result String Value × Store
  handle_update_record body s = write_record R.update (Q.parse_update body) s

  unfoldable pub handle_delete_record : Value → Store → Result String Value × Store
  handle_delete_record body s = elim (Q.parse_delete body) [
    | err e ↦ (err e, s)
    | ok q ↦
        let (outcome, s') = R.delete (query_for q) s in
        (reply (λ _. key_body q.entity_id q.authority_id q.action q.resource) outcome, s')
  ]

  unfoldable pub handle_read_record : Value → Store → Result String Value × Store
  handle_read_record body s = elim (Q.parse_read body) [
    | err e ↦ (err e, s)
    | ok q ↦ let (outcome, s') = R.read (query_for q) s in (reply record_body outcome, s')
  ]

  unfoldable pub handle_list_records : Store → Result String Value × Store
  handle_list_records s = let (outcome, s') = R.list s in (reply list_body outcome, s')
