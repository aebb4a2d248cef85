-- ===== src/Audit.antt =====
-- trust-registry/src/audit/model.rs: audit entries and their builder. A reading of the clock is an
-- argument.
pub mod Logger
use trust_registry_build_pip.Base.{ℕ, String, Option, none, some, [], ◌∷◌, format}
use trust_registry_build_pip.Domain.Record.{EntityId, AuthorityId, Action, Resource, TrustRecord}

abbrev pub audit_role_admin : String
audit_role_admin = "ADMIN"

pub data AuditStatus : Type 0 where
  success failure unauthorized : AuditStatus

unfoldable pub status_to_string : AuditStatus → String
status_to_string success = "SUCCESS"
status_to_string failure = "FAILURE"
status_to_string unauthorized = "UNAUTHORIZED"

pub data AuditOperation : Type 0 where
  create update delete read list : AuditOperation

unfoldable pub operation_to_string : AuditOperation → String
operation_to_string create = "CREATE"
operation_to_string update = "UPDATE"
operation_to_string delete = "DELETE"
operation_to_string read = "READ"
operation_to_string list = "LIST"

pub record AuditResource : Type 0 where
  pub entity_id : Option EntityId
  pub authority_id : Option AuthorityId
  pub action : Option Action
  pub resource : Option Resource

abbrev pub empty_resource : AuditResource
empty_resource = record { entity_id = none; authority_id = none; action = none; resource = none }

abbrev pub from_record : TrustRecord → AuditResource
from_record r = record {
  entity_id = some r.entity_id;
  authority_id = some r.authority_id;
  action = some r.action;
  resource = some r.resource;
}

pub record AuditLog : Type 0 where
  pub target : String
  pub operation : AuditOperation
  pub actor : String
  pub status : AuditStatus
  pub resource : AuditResource
  pub extra : Option String
  pub thread_id : Option String
  pub timestamp : ℕ

-- `AuditLogBuilder::new`; the builder is the entry that it holds.
abbrev pub new : ℕ → AuditLog
new now = record {
  target = audit_role_admin;
  operation = read;
  actor = "";
  status = success;
  resource = empty_resource;
  extra = none;
  thread_id = none;
  timestamp = now;
}

abbrev pub operation : AuditOperation → AuditLog → AuditLog
operation o l = record l { operation = o }

abbrev pub actor : String → AuditLog → AuditLog
actor a l = record l { actor = a }

abbrev pub resource : AuditResource → AuditLog → AuditLog
resource r l = record l { resource = r }

abbrev pub thread_id : Option String → AuditLog → AuditLog
thread_id t l = record l { thread_id = t }

abbrev pub build_success : ℕ → AuditLog → AuditLog
build_success now l = record l { status = success; timestamp = now }

abbrev pub build_failure : ℕ → String → AuditLog → AuditLog
build_failure now message l = record l {
  status = failure;
  extra = some (format ("audit.error=" ∷ message ∷ []));
  timestamp = now;
}

abbrev pub build_unauthorized : ℕ → String → AuditLog → AuditLog
build_unauthorized now reason l = record l {
  status = unauthorized;
  extra = some (format ("audit.reason=" ∷ reason ∷ []));
  timestamp = now;
}
