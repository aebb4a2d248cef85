-- ===== src/Domain/Builder.antt =====
-- `TrustRecordBuilder` of trust-registry/src/domain/mod.rs.
use trust_registry_build_pip.Base.{
  ◌≡◌, ◌↔◌, arith, Bool, Option, some, none, is_some, if◌then◌else◌, Result, ok, err, ◌>>=◌, ok_or,
}
use trust_registry_build_pip.Domain.Json.{Context, empty}
use trust_registry_build_pip.Domain.RecordType.{
  RecordType, TrustRecordError, missing_entity_id, missing_authority_id, missing_action,
  missing_resource, missing_record_type,
}
use trust_registry_build_pip.Domain.Record.{EntityId, AuthorityId, Action, Resource, TrustRecord}

pub record TrustRecordBuilder : Type 0 where
  pub entity_id : Option EntityId
  pub authority_id : Option AuthorityId
  pub action : Option Action
  pub resource : Option Resource
  pub recognized : Option Bool
  pub context : Context
  pub authorized : Option Bool
  pub record_type : Option RecordType

unfoldable pub new : TrustRecordBuilder
new = record {
  entity_id = none;
  authority_id = none;
  action = none;
  resource = none;
  recognized = none;
  context = empty;
  authorized = none;
  record_type = none;
}

unfoldable pub entity_id : TrustRecordBuilder → EntityId → TrustRecordBuilder
entity_id b id = record b { entity_id = some id }

unfoldable pub authority_id : TrustRecordBuilder → AuthorityId → TrustRecordBuilder
authority_id b id = record b { authority_id = some id }

unfoldable pub action : TrustRecordBuilder → Action → TrustRecordBuilder
action b a = record b { action = some a }

unfoldable pub resource : TrustRecordBuilder → Resource → TrustRecordBuilder
resource b r = record b { resource = some r }

unfoldable pub recognized : TrustRecordBuilder → Bool → TrustRecordBuilder
recognized b flag = record b { recognized = some flag }

unfoldable pub context : TrustRecordBuilder → Context → TrustRecordBuilder
context b c = record b { context = c }

unfoldable pub authorized : TrustRecordBuilder → Bool → TrustRecordBuilder
authorized b flag = record b { authorized = some flag }

unfoldable pub record_type : TrustRecordBuilder → RecordType → TrustRecordBuilder
record_type b t = record b { record_type = some t }

-- The fields are evaluated in the order in which `build` writes them.
unfoldable pub build : TrustRecordBuilder → Result TrustRecordError TrustRecord
build b = do
  entity ← ok_or b.entity_id missing_entity_id
  authority ← ok_or b.authority_id missing_authority_id
  act ← ok_or b.action missing_action
  res ← ok_or b.resource missing_resource
  type_ ← ok_or b.record_type missing_record_type
  ok (record {
    entity_id = entity;
    authority_id = authority;
    action = act;
    resource = res;
    recognized = b.recognized;
    authorized = b.authorized;
    context = b.context;
    record_type = type_;
  })

-- The builder that holds each field of a record.
abbrev pub filled : TrustRecord → TrustRecordBuilder
filled r = record {
  entity_id = some r.entity_id;
  authority_id = some r.authority_id;
  action = some r.action;
  resource = some r.resource;
  recognized = r.recognized;
  context = r.context;
  authorized = r.authorized;
  record_type = some r.record_type;
}

-- `build` returns a record exactly for the builder that holds the fields of that record.
pub build-filled : (b : TrustRecordBuilder) (r : TrustRecord) → (build b ≡ ok r) ↔ (b ≡ filled r)
unfolding build
build-filled b r = ground arith

-- The first of the required fields that is missing, in the order of the checks.
abbrev pub first_missing : TrustRecordBuilder → Option TrustRecordError
first_missing b =
    if is_some b.entity_id
    then (if is_some b.authority_id
        then (if is_some b.action
            then (if is_some b.resource
                then (if is_some b.record_type then none else some missing_record_type)
                else some missing_resource)
            else some missing_action)
        else some missing_authority_id)
    else some missing_entity_id

-- `build` fails exactly with the first required field that is missing.
pub build-first_missing :
    (b : TrustRecordBuilder) (e : TrustRecordError) → (build b ≡ err e) ↔ (first_missing b ≡ some e)
unfolding build
build-first_missing b e = ground arith
