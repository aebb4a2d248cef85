-- ===== src/Didcomm/Admin.antt =====
-- trust-registry/src/didcomm/handlers/admin/mod.rs: the admin protocol. The audit log and the messages
-- that go out are lists, the newest first: a send that fails is only logged by the code. The reading
-- of the clock with which an entry is begun is overwritten when it is built, so one reading is given.
pub mod Messages
pub mod Access
pub mod Records
use trust_registry_build_pip.Base.{
  ℕ, String, Bool, ◌||◌, Option, none, some, is_some, Result, ok, err, if◌then◌else◌, ◌==◌,
  string_eq, List, [], ◌∷◌, contains, format,
}
use trust_registry_build_pip.Domain.Json.{Value, string, object, Fields, lookup}
use trust_registry_build_pip.Storage.Repository.{Repository}
use trust_registry_build_pip.Audit
use trust_registry_build_pip.Audit.{AuditLog, AuditOperation, AuditResource, empty_resource}
use trust_registry_build_pip.Didcomm.ProblemReport
use trust_registry_build_pip.Didcomm.ProblemReport.{ProblemReport}
use Messages.{
  Requests, handle_create_record, handle_update_record, handle_delete_record, handle_read_record,
  handle_list_records,
}

abbrev pub create_record_message_type : String
create_record_message_type = "https://affinidi.com/didcomm/protocols/tr-admin/1.0/create-record"

abbrev pub update_record_message_type : String
update_record_message_type = "https://affinidi.com/didcomm/protocols/tr-admin/1.0/update-record"

abbrev pub delete_record_message_type : String
delete_record_message_type = "https://affinidi.com/didcomm/protocols/tr-admin/1.0/delete-record"

abbrev pub read_record_message_type : String
read_record_message_type = "https://affinidi.com/didcomm/protocols/tr-admin/1.0/read-record"

abbrev pub list_records_message_type : String
list_records_message_type = "https://affinidi.com/didcomm/protocols/tr-admin/1.0/list-records"

-- Each response type is that of its request with this suffix.
abbrev pub response_to : String → String
response_to message_type = format (message_type ∷ "/response" ∷ [])

abbrev pub get_supported_inbound_message_types : List String
get_supported_inbound_message_types =
    create_record_message_type ∷ update_record_message_type ∷ delete_record_message_type
    ∷ read_record_message_type ∷ list_records_message_type ∷ []

unfoldable pub get_operation_from_message_type : String → AuditOperation
get_operation_from_message_type message_type =
    if create_record_message_type == message_type
    then AuditOperation.create
    else if update_record_message_type == message_type
    then AuditOperation.update
    else if delete_record_message_type == message_type
    then AuditOperation.delete
    else if read_record_message_type == message_type
    then AuditOperation.read
    else if list_records_message_type == message_type
    then AuditOperation.list
    else AuditOperation.create

abbrev as_str : Option Value → Option String
as_str (some (string s)) = some s
as_str _ = none

abbrev resource_of : Fields → AuditResource
resource_of body = record {
  entity_id = as_str (lookup body "entity_id");
  authority_id = as_str (lookup body "authority_id");
  action = as_str (lookup body "action");
  resource = as_str (lookup body "resource");
}

abbrev names_any : AuditResource → Bool
names_any r =
    is_some r.entity_id || is_some r.authority_id || is_some r.action || is_some r.resource

unfoldable pub extract_audit_resource : Value → AuditResource
extract_audit_resource (object body) =
    if names_any (resource_of body) then resource_of body else empty_resource
extract_audit_resource _ = empty_resource

-- `HandlerContext`, as far as the handler reads it
pub record HandlerContext : Type 0 where
  pub sender_did : String
  pub thid : Option String
  pub pthid : Option String

pub data Content : Type 0 where
  response : String → Value → Content
  problem : ProblemReport → Content

pub record Outgoing : Type 0 where
  pub recipient : String
  pub thid : Option String
  pub pthid : Option String
  pub content : Content

pub record World (S : Type 0) : Type 0 where
  pub store : S
  pub audits : List AuditLog
  pub sent : List Outgoing

unfoldable pub validate_admin_did : List String → String → Result String (Unit {0})
validate_admin_did admin_dids sender_did =
    if contains admin_dids sender_did
    then ok tt
    else err (format ("Unauthorized: DID " ∷ sender_did ∷ " is not in admin list" ∷ []))

abbrev pub begun : HandlerContext → ℕ → AuditOperation → AuditResource → AuditLog
begun ctx now operation resource = Audit.thread_id ctx.thid (
    Audit.resource resource
      (Audit.actor ctx.sender_did (Audit.operation operation (Audit.new now))))

abbrev pub send : {S : Type 0} → HandlerContext → Content → World S → World S
send ctx content w = record w {
  sent =
      record { recipient = ctx.sender_did; thid = ctx.thid; pthid = ctx.pthid; content = content }
      ∷ w.sent;
}

abbrev pub log : {S : Type 0} → AuditLog → World S → World S
log entry w = record w { audits = entry ∷ w.audits }

unfoldable pub handle_success :
    {S : Type 0}
    → HandlerContext
    → ℕ
    → String
    → Value
    → AuditOperation
    → AuditResource
    → World S
    → World S
handle_success ctx now response_message_type response_body operation resource w =
    send ctx (response response_message_type response_body)
      (log (Audit.build_success now (begun ctx now operation resource)) w)

unfoldable pub handle_failure :
    {S : Type 0} → HandlerContext → ℕ → String → AuditOperation → AuditResource → World S → World S
handle_failure ctx now error_msg operation resource w =
    send ctx (problem (ProblemReport.internal_error error_msg))
      (log (Audit.build_failure now error_msg (begun ctx now operation resource)) w)

unfoldable pub handle_unauthorized :
    {S : Type 0} → HandlerContext → ℕ → String → String → World S → World S
unfolding get_operation_from_message_type
handle_unauthorized ctx now auth_error message_type w =
    let operation = get_operation_from_message_type message_type in
    send ctx (problem (ProblemReport.unauthorized auth_error))
      (log (Audit.build_unauthorized now auth_error (begun ctx now operation empty_resource)) w)

module _ (R : Repository) (Q : Requests) where
  open R use {Store}

  -- The `match` on the message type: the response type, and the outcome with the store.
  unfoldable pub run : String → Value → Store → Option (String × (Result String Value × Store))
  run message_type body s =
      if create_record_message_type == message_type
      then some (response_to create_record_message_type, handle_create_record R Q body s)
      else if update_record_message_type == message_type
      then some (response_to update_record_message_type, handle_update_record R Q body s)
      else if delete_record_message_type == message_type
      then some (response_to delete_record_message_type, handle_delete_record R Q body s)
      else if read_record_message_type == message_type
      then some (response_to read_record_message_type, handle_read_record R Q body s)
      else if list_records_message_type == message_type
      then some (response_to list_records_message_type, handle_list_records R Q s)
      else none

  abbrev pub finish :
      HandlerContext
      → ℕ
      → String
      → Value
      → Option (String × (Result String Value × Store))
      → World Store
      → World Store
  finish ctx now message_type body none w =
      send ctx
        (problem
          (ProblemReport.bad_request (format ("Unknown message type: " ∷ message_type ∷ []))))
        w
  finish ctx now message_type body (some (response_type, (ok response_body, s))) w =
      handle_success ctx now response_type response_body
        (get_operation_from_message_type message_type) (extract_audit_resource body)
        (record w { store = s })
  finish ctx now message_type body (some (response_type, (err error_msg, s))) w =
      handle_failure ctx now error_msg (get_operation_from_message_type message_type)
        (extract_audit_resource body) (record w { store = s })

  unfoldable pub handle_request : HandlerContext → ℕ → String → Value → World Store → World Store
  handle_request ctx now message_type body w =
      finish ctx now message_type body (run message_type body w.store) w

  unfoldable pub handle :
      List String → HandlerContext → ℕ → String → Value → World Store → World Store
  handle admin_dids ctx now message_type body w =
      elim (validate_admin_did admin_dids ctx.sender_did) [
        | err auth_error ↦ handle_unauthorized ctx now auth_error message_type w
        | ok _ ↦ handle_request ctx now message_type body w
      ]
