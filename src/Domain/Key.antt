-- ===== src/Domain/Key.antt =====
-- trust-registry/src/domain/key.rs, with `TrustRecordQuery` of storage/repository.rs.
use text.Mathlib.Text.{◌==◌ as text_eq}
use text.Mathlib.TextEquality.{eq_iff}
use text.Mathlib.TextLemmas.{append_cancel_left, append-nil}
use trust_registry_build_pip.Base.{
  String, Bool, true, ◌&&◌, ◌≡◌, ◌↔◌, sym, ◌∙◌, arith, [], ◌∷◌, format, PartialEq,
}
use trust_registry_build_pip.Base.Strings.{Free, hash_inj}
use trust_registry_build_pip.Domain.Record.{
  EntityId, AuthorityId, Action, Resource, TrustRecord, TrustRecordIds,
}

pub record TrustRecordQuery : Type 0 where
  pub entity_id : EntityId
  pub authority_id : AuthorityId
  pub action : Action
  pub resource : Resource

-- `TrustRecordQuery::new`, and `query_of` of trust_tasks/payloads.rs
unfoldable pub query_new : EntityId → AuthorityId → Action → Resource → TrustRecordQuery
query_new entity_id authority_id action resource = record {
  entity_id = entity_id;
  authority_id = authority_id;
  action = action;
  resource = resource;
}

pub from_ids : TrustRecordIds → TrustRecordQuery
from_ids ids = record {
  entity_id = ids.entity_id;
  authority_id = ids.authority_id;
  action = ids.action;
  resource = ids.resource;
}

pub record TrustRecordKey : Type 0 where
  pub authority_id : AuthorityId
  pub action : Action
  pub resource : Resource
  pub entity_id : EntityId

abbrev pub tr_sk_prefix : String
tr_sk_prefix = "TR#"

-- The sort key, which is also `Display`.
unfoldable pub sk : TrustRecordKey → String
sk k =
    format
      (tr_sk_prefix ∷ k.authority_id ∷ "#" ∷ k.action ∷ "#" ∷ k.resource ∷ "#" ∷ k.entity_id ∷ [])

unfoldable pub from_record : TrustRecord → TrustRecordKey
from_record r = record {
  authority_id = r.authority_id;
  action = r.action;
  resource = r.resource;
  entity_id = r.entity_id;
}

unfoldable pub from_query : TrustRecordQuery → TrustRecordKey
from_query q = record {
  authority_id = q.authority_id;
  action = q.action;
  resource = q.resource;
  entity_id = q.entity_id;
}

-- the derived `PartialEq`
abbrev pub key_beq : TrustRecordKey → TrustRecordKey → Bool
key_beq a b =
    text_eq a.authority_id b.authority_id
    && text_eq a.action b.action
    && text_eq a.resource b.resource
    && text_eq a.entity_id b.entity_id

pub key_beq_iff : (a b : TrustRecordKey) → (key_beq a b ≡ true) ↔ (a ≡ b)
key_beq_iff a b = ground (
  arith,
  eq_iff a.authority_id b.authority_id,
  eq_iff a.action b.action,
  eq_iff a.resource b.resource,
  eq_iff a.entity_id b.entity_id,
)

instance abbrev pub key_eq : PartialEq TrustRecordKey
key_eq = record { equal = key_beq; decides = key_beq_iff }

-- The parts of a key that stand before a separator hold none.
pub record IsPlain (k : TrustRecordKey) : Type 0 where
  pub authority_id : Free b'#' k.authority_id
  pub action : Free b'#' k.action
  pub resource : Free b'#' k.resource

-- Two keys whose authority, action and resource hold no `#` are equal if their sort keys are.
pub sk_inj : (a b : TrustRecordKey) → IsPlain a → IsPlain b → sk a ≡ sk b → a ≡ b
unfolding sk
sk_inj a b pa pb e =
    let p =
      hash_inj a.authority_id b.authority_id _ _ pa.authority_id pb.authority_id
        (append_cancel_left tr_sk_prefix _ _ e) in
    let q = hash_inj a.action b.action _ _ pa.action pb.action p.1 in
    let r = hash_inj a.resource b.resource _ _ pa.resource pb.resource q.1 in
    let s = sym (append-nil a.entity_id) ∙ r.1 ∙ append-nil b.entity_id in cc (p.0, q.0, r.0, s)
