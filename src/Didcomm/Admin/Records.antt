-- ===== src/Didcomm/Admin/Records.antt =====
-- What an admin's create leaves for a read, over any repository that meets its contract.
use trust_registry_build_pip.Base.{◌≡◌, refl, sym, ap, subst, ◌∙◌, arith, none, some, unwrap_or, ok}
use trust_registry_build_pip.Domain.Json.{Value, empty}
use trust_registry_build_pip.Domain.RecordType.{RecordType, from_str}
use trust_registry_build_pip.Domain.Record.{TrustRecord}
use trust_registry_build_pip.Domain.Builder
use trust_registry_build_pip.Domain.Key.{key_eq, query_new, from_record, from_query}
use trust_registry_build_pip.Storage.Repository.{put_self, Repository, View, Contract, Slots}
use trust_registry_build_pip.Didcomm.Admin.Messages.{
  RecordRequest, KeyRequest, Requests, record_of, key_body, record_body, query_for, reply,
  write_record, handle_create_record, handle_read_record,
}

-- The record that a request describes; without a context it is the empty object.
abbrev pub requested : RecordRequest → RecordType → TrustRecord
requested q t = record {
  entity_id = q.entity_id;
  authority_id = q.authority_id;
  action = q.action;
  resource = q.resource;
  recognized = some q.recognized;
  authorized = some q.authorized;
  context = unwrap_or q.context empty;
  record_type = t;
}

-- The request for the record of another request.
abbrev pub key_of : RecordRequest → KeyRequest
key_of q = record {
  entity_id = q.entity_id;
  authority_id = q.authority_id;
  action = q.action;
  resource = q.resource;
}

record_of-requested :
    (q : RecordRequest) (t : RecordType)
    → from_str q.record_type ≡ ok t
    → record_of q ≡ ok (requested q t)
unfolding record_of Builder.new Builder.entity_id Builder.authority_id Builder.action
    Builder.resource Builder.recognized Builder.authorized Builder.context Builder.record_type
    Builder.build
record_of-requested q t e = ground arith

requested-key :
    (q : RecordRequest) (t : RecordType)
    → from_query (query_for (key_of q)) ≡ from_record (requested q t)
unfolding from_query from_record query_new
requested-key q t = refl

module _ (R : Repository) (Q : Requests) where
  create-eq :
      (body : Value) (q : RecordRequest) (r : TrustRecord) (s : R.Store)
      → Q.parse_create body ≡ ok q
      → record_of q ≡ ok r
      → handle_create_record R Q body s ≡ (
        reply (λ _. key_body q.entity_id q.authority_id q.action q.resource) (R.create r s).0,
        (R.create r s).1,
      )
  unfolding handle_create_record
  create-eq body q r s parsed built =
      ap (λ o. write_record R Q R.create o s) parsed ∙ ground (arith, built)

  read-eq :
      (body : Value) (q : KeyRequest) (s : R.Store)
      → Q.parse_read body ≡ ok q
      → handle_read_record R Q body s
        ≡ (reply record_body (R.read (query_for q) s).0, (R.read (query_for q) s).1)
  unfolding handle_read_record
  read-eq body q s parsed = ground (arith, parsed)

  module _ (N : Slots) (IsReady : R.Store → Type 0) (view : R.Store → View)
      (C : Contract R N IsReady view) where
    -- On a ready store of a repository that meets its contract, a create request that parses, with
    -- a known record type and a free key, succeeds with the four identifiers, and a read request
    -- for them is then answered with the record as it was requested; the read leaves the store as
    -- it is.
    pub create_then_read :
        (body body' : Value) (q : RecordRequest) (t : RecordType) (s : R.Store)
        → IsReady s
        → Q.parse_create body ≡ ok q
        → from_str q.record_type ≡ ok t
        → Q.parse_read body' ≡ ok (key_of q)
        → view s (from_record (requested q t)) ≡ none
        → let created = handle_create_record R Q body s in
          (created.0 ≡ ok (key_body q.entity_id q.authority_id q.action q.resource))
          × (handle_read_record R Q body' created.1 ≡ (ok (record_body (requested q t)), created.1))
    create_then_read body body' q t s ready parsed known asked free =
        let r = requested q t in
        let eq = create-eq body q r s parsed (record_of-requested q t known) in
        let made = C.create_new r s ready free in
        let stored =
          ap (view (R.create r s).1) (requested-key q t)
          ∙ made.2 (from_record r)
          ∙ put_self N (view s) (from_record r) (some r) in
        let found = C.read_old (query_for (key_of q)) r (R.create r s).1 made.1 stored in
        (
          ap (λ x. x.0) eq
              ∙ ap (reply (λ _. key_body q.entity_id q.authority_id q.action q.resource)) made.0,
          subst (λ (x : R.Store). handle_read_record R Q body' x ≡ (ok (record_body r), x))
              (sym (ap (λ x. x.1) eq))
              (read-eq body' (key_of q) (R.create r s).1 asked
                ∙ ap (λ x. (reply record_body x.0, x.1)) found),
        )
