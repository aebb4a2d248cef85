-- ===== src/Tests/Registry.antt =====
-- A client over a registry with one record in memory.
use trust_registry_build_pip.Base.{true, ◌≡◌, ◌↔◌, some, ok, string_eq}
use trust_registry_build_pip.Domain.Record.{TrustRecord}
use trust_registry_build_pip.Domain.Key.{from_query}
use trust_registry_build_pip.Storage.Repository.{by_key}
use trust_registry_build_pip.Storage.Local.{repository}
use trust_registry_build_pip.Storage.Local.Laws.{IsReady, view, repository-Contract}
use trust_registry_build_pip.TrustTasks.Router.{QueryResponse, query_of}
use trust_registry_build_pip.Client.Query.{TrqpQuery, new_query, new_client}
use trust_registry_build_pip.Client.Query.Registry.{asked, authorization, authorization-view}
use trust_registry_build_pip.Tests.Router.{one_storage, one-IsReady}
use trust_registry_build_pip.Tests.Payloads.{serializers}
use trust_registry_build_pip.Tests.Wire.{framework, payloads, dispatching, crate, wire}

abbrev query : TrqpQuery
query = new_query "did:e" "did:a" "issue" "badge"

authorization-view_example :
    (answer : QueryResponse) × (authorization crate framework serializers payloads wire repository
        dispatching "r" 5 by_key IsReady view repository-Contract
        (new_client "did:r")
        "urn:1"
        4
        query
        one_storage
        one-IsReady
      ≡ (ok answer, one_storage))
    × ((answer.answer ≡ true) ↔ (
        (r : TrustRecord) × (view one_storage (
            from_query (
              query_of (
                asked crate framework serializers payloads wire repository dispatching "r" 5 by_key
                  IsReady view repository-Contract
                  (new_client "did:r")
                  "urn:1"
                  4
                  query
                  one_storage
                  one-IsReady)))
          ≡ some r)
        × (r.authorized ≡ some true)))
authorization-view_example =
    authorization-view crate framework serializers payloads wire repository dispatching "r" 5 by_key
      IsReady view repository-Contract (new_client "did:r") "urn:1" 4 query one_storage one-IsReady
