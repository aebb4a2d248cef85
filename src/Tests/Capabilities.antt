-- ===== src/Tests/Capabilities.antt =====
-- A grant, its revocation and its renewal over the in-memory storage.
use trust_registry_build_pip.Base.{true, false, ◌≡◌, refl, some, ok, err, [], ◌∷◌, string_eq}
use trust_registry_build_pip.Base.HashMap
use trust_registry_build_pip.Domain.Record.{TrustRecord, is_recognized, is_authorized}
use trust_registry_build_pip.Domain.Key.{TrustRecordKey, from_record, from_query}
use trust_registry_build_pip.Storage.Local.{LocalStorage, repository}
use trust_registry_build_pip.Storage.Local.Laws.{IsReady, view, repository-Contract}
use trust_registry_build_pip.TrustTasks.Framework.{task_failed}
use trust_registry_build_pip.Capabilities.GitTrust.{
  handle_grant, grant_record, grant_query, granted_payload, revoked_payload, already_granted,
}
use trust_registry_build_pip.Capabilities.GitTrust.Lifecycle.{
  tuple_key, grant, revoke, grant_authorizes, revoke_unauthorizes, regrant_refused,
}
use trust_registry_build_pip.Storage.Repository.{by_key}
use trust_registry_build_pip.Tests.Fixtures.{framework, write_doc}

abbrev key : TrustRecordKey
key = tuple_key "did:a" "did:s" "repo"

abbrev fresh_storage : LocalStorage
fresh_storage = record { records = []; poisoned = false }

fresh-IsReady : IsReady fresh_storage
fresh-IsReady = record { unpoisoned = refl; keyed = tt; distinct = tt }

abbrev granted : TrustRecord
granted = grant_record "did:a" "did:s" "repo"

abbrev granted_storage : LocalStorage
granted_storage = record { records = (key, granted) ∷ []; poisoned = false }

granted-IsReady : IsReady granted_storage
unfolding grant_record grant_query from_record from_query HashMap.get
granted-IsReady = record { unpoisoned = refl; keyed = (refl, tt); distinct = (refl, tt) }

granted-view : view granted_storage key ≡ some granted
unfolding view HashMap.get grant_query from_query
granted-view = refl

grant_authorizes_example :
    let after =
      grant framework repository by_key IsReady view repository-Contract "did:a" "x" write_doc
        "did:s" "repo" fresh_storage fresh-IsReady in
    (after.0 ≡ ok (framework.respond_with write_doc "x" (granted_payload "did:s" "repo")))
    × IsReady after.1
    × ((r : TrustRecord) × (view after.1 key ≡ some r)
        × (is_authorized r ≡ true)
        × (is_recognized r ≡ true))
    × ((j : TrustRecordKey) → by_key.same key j ≡ false → view after.1 j ≡ view fresh_storage j)
unfolding view HashMap.get
grant_authorizes_example =
    grant_authorizes framework repository by_key IsReady view repository-Contract "did:a" "x"
      write_doc "did:s" "repo" fresh_storage fresh-IsReady refl

revoke_unauthorizes_example :
    let after =
      revoke framework repository by_key IsReady view repository-Contract "did:a" "x" write_doc
        "did:s" "repo" granted_storage granted-IsReady in
    (after.0 ≡ ok (framework.respond_with write_doc "x" (revoked_payload "did:s" "repo")))
    × IsReady after.1
    × ((r : TrustRecord) × (view after.1 key ≡ some r)
        × (is_authorized r ≡ false)
        × (is_recognized r ≡ is_recognized granted)
        × (r.context ≡ granted.context))
    × ((j : TrustRecordKey) → by_key.same key j ≡ false → view after.1 j ≡ view granted_storage j)
revoke_unauthorizes_example =
    revoke_unauthorizes framework repository by_key IsReady view repository-Contract "did:a" "x"
      write_doc "did:s" "repo" granted_storage granted-IsReady granted granted-view

regrant_refused_example :
    let s' =
      (revoke framework repository by_key IsReady view repository-Contract "did:a" "x" write_doc
        "did:s" "repo" granted_storage granted-IsReady).1 in
    ((r : TrustRecord) × (repository.find_by_query (grant_query "did:a" "did:s" "repo") s'
        ≡ (ok (some r), s'))
      × (is_authorized r ≡ false))
    × (handle_grant framework repository (some "did:a") "y" write_doc "did:s" "repo" s'
        ≡ (err (framework.reject_with write_doc "y" (task_failed already_granted)), s'))
regrant_refused_example =
    regrant_refused framework repository by_key IsReady view repository-Contract "did:a" "x" "y"
      write_doc write_doc "did:s" "repo" granted_storage granted-IsReady granted granted-view
