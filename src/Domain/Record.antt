-- ===== src/Domain/Record.antt =====
-- `TrustRecord` of trust-registry/src/domain/mod.rs. The four identifiers are newtypes over `String`,
-- whose constructor, `as_str` and `Display` are the identity.
use trust_registry_build_pip.Base.{
  String, Bool, false, Option, some, none, unwrap_or, format, [], ◌∷◌,
}
use trust_registry_build_pip.Domain.Json.{Context, merge}
use trust_registry_build_pip.Domain.RecordType.{RecordType}

abbrev pub EntityId : Type 0
EntityId = String

abbrev pub AuthorityId : Type 0
AuthorityId = String

abbrev pub Action : Type 0
Action = String

abbrev pub Resource : Type 0
Resource = String

pub record TrustRecordIds : Type 0 where
  pub entity_id : EntityId
  pub authority_id : AuthorityId
  pub action : Action
  pub resource : Resource

pub into_parts : TrustRecordIds → EntityId × AuthorityId × Action × Resource
into_parts ids = (ids.entity_id, ids.authority_id, ids.action, ids.resource)

pub record TrustRecord : Type 0 where
  pub entity_id : EntityId
  pub authority_id : AuthorityId
  pub action : Action
  pub resource : Resource
  pub recognized : Option Bool
  pub authorized : Option Bool
  pub context : Context
  pub record_type : RecordType

-- `Display` of a record
abbrev pub to_string : TrustRecord → String
to_string r = format (r.entity_id ∷ "|" ∷ r.authority_id ∷ "|" ∷ r.action ∷ "|" ∷ r.resource ∷ [])

-- `TrustRecord::new`
unfoldable pub new :
    EntityId → AuthorityId → Action → Resource → Bool → Bool → Context → RecordType → TrustRecord
new entity_id authority_id action resource recognized authorized context record_type = record {
  entity_id = entity_id;
  authority_id = authority_id;
  action = action;
  resource = resource;
  recognized = some recognized;
  authorized = some authorized;
  context = context;
  record_type = record_type;
}

-- `unwrap_or_default`: an absent flag reads as false.
abbrev pub is_recognized : TrustRecord → Bool
is_recognized r = unwrap_or r.recognized false

abbrev pub is_authorized : TrustRecord → Bool
is_authorized r = unwrap_or r.authorized false

unfoldable pub merge_contexts : TrustRecord → Context → TrustRecord
merge_contexts r additional_context = record r { context = merge r.context additional_context }

unfoldable pub none_authorized : TrustRecord → TrustRecord
none_authorized r = record r { authorized = none }

unfoldable pub none_recognized : TrustRecord → TrustRecord
none_recognized r = record r { recognized = none }
