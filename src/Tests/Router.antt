-- ===== src/Tests/Router.antt =====
-- Queries and writes of the router over the in-memory storage.
use trust_registry_build_pip.Base.{
  String, Result, ◌↔◌, true, false, ◌≡◌, refl, none, some, ok, [], ◌∷◌,
}
use trust_registry_build_pip.Base.HashMap
use trust_registry_build_pip.Domain.Json.{Value, null, bool}
use trust_registry_build_pip.Domain.Record.{TrustRecord}
use trust_registry_build_pip.Domain.Key.{TrustRecordKey, query_new, from_record, from_query}
use trust_registry_build_pip.Storage.Repository.{TrustRecordList}
use trust_registry_build_pip.Storage.Local.{LocalStorage, repository}
use trust_registry_build_pip.Storage.Local.Laws.{IsReady, view, repository-Contract}
use trust_registry_build_pip.TrustTasks.Router.{
  KeyPayload, QueryResponse, query_of, Serializers, handle_create,
}
use trust_registry_build_pip.TrustTasks.Router.Writes.{asked, create_then_query}
use trust_registry_build_pip.Storage.Repository.{by_key}
use trust_registry_build_pip.Tests.Fixtures.{framework, write_doc, other_doc, trust_record}

-- A specification's record is the record; a response is encoded as its answer.
abbrev pub serializers : Serializers
serializers = record {
  recognition_to_value = λ r. ok (bool r.answer);
  authorization_to_value = λ r. ok (bool r.answer);
  write_to_value = λ r. ok (bool r.is_ok);
  SpecRecord = TrustRecord;
  from_spec = λ r. ok r;
  ReadResponse = TrustRecord;
  to_read_response = λ r. ok r;
  read_to_value = λ r. ok null;
  ListResponse = TrustRecordList;
  to_list_response = λ l. ok l;
  list_to_value = λ l. ok null;
}

abbrev pub payload : KeyPayload
payload = record {
  entity_id = "did:e";
  authority_id = "did:a";
  action = "issue";
  resource = "badge";
  time = none;
}

abbrev pub key : TrustRecordKey
key = record { entity_id = "did:e"; authority_id = "did:a"; action = "issue"; resource = "badge" }

abbrev empty_storage : LocalStorage
empty_storage = record { records = []; poisoned = false }

empty-IsReady : IsReady empty_storage
empty-IsReady = record { unpoisoned = refl; distinct = tt; keyed = tt }

abbrev pub one_storage : LocalStorage
one_storage = record { records = (key, trust_record) ∷ []; poisoned = false }

pub one-IsReady : IsReady one_storage
unfolding from_record HashMap.get
one-IsReady = record { unpoisoned = refl; distinct = (refl, tt); keyed = (refl, tt) }

abbrev authorized_record : TrustRecord
authorized_record = record trust_record { authorized = some true }

payload-key : from_query (query_of payload) ≡ from_record authorized_record
unfolding query_of from_query from_record query_new
payload-key = refl

empty-view : view empty_storage (from_record trust_record) ≡ none
unfolding view HashMap.get
empty-view = refl

create_then_query_example :
    let after =
      handle_create framework serializers repository "x" write_doc trust_record empty_storage in
    (after.0 ≡ ok (framework.respond_with write_doc "x" (bool true)))
    × (answer : QueryResponse) × ((v : Value)
        → ◌≡◌ {A = Result String Value} (ok (bool answer.answer)) (ok v)
        → asked framework serializers repository by_key IsReady view repository-Contract "x"
            write_doc empty_storage empty-IsReady "y" 5 other_doc payload after.1
          ≡ ok (framework.respond_with other_doc "y" v))
    × ((answer.answer ≡ true) ↔ (trust_record.authorized ≡ some true))
unfolding from_record
create_then_query_example =
    create_then_query framework serializers repository by_key IsReady view repository-Contract "x"
      write_doc empty_storage empty-IsReady "y" 5 other_doc payload trust_record trust_record
      (bool true) refl empty-view payload-key refl
