-- ===== src/Storage/Local/Laws.antt =====
-- `LocalStorage` meets the contract of a repository.
use trust_registry_build_pip.Base.{◌≡◌, ◌↔◌, refl, arith, false, none, some, ok, err}
use trust_registry_build_pip.Base.HashMap
use trust_registry_build_pip.Base.HashMap.{
  HashMap, Distinct, find, get-insert, get-remove, get-remove_absent, insert-Distinct,
  remove-Distinct,
}
use trust_registry_build_pip.Domain.Record.{TrustRecord}
use trust_registry_build_pip.Domain.Key.{
  TrustRecordQuery, TrustRecordKey, key_eq, from_record, from_query,
}
use trust_registry_build_pip.Storage.Repository.{
  TrustRecordList, Listed, record_not_found, Contract, View, put, by_key, FailsWith, already_exists,
  not_found,
}
use trust_registry_build_pip.Storage.Local.Keyed.{
  IsKeyed, insert-IsKeyed, remove-IsKeyed, find-get, values-get,
}
use trust_registry_build_pip.Storage.Local.{
  LocalStorage, repository, find_by_query, create, update, delete, list, read, query_text,
}

pub record IsReady (s : LocalStorage) : Type 0 where
  pub unpoisoned : s.poisoned ≡ false
  pub distinct : Distinct s.records
  pub keyed : IsKeyed s.records

unfoldable pub view : LocalStorage → View
view s = HashMap.get s.records

pub put_record-IsReady :
    (r : TrustRecord) (s : LocalStorage)
    → IsReady s
    → IsReady (record s { records = HashMap.insert s.records (from_record r) r })
put_record-IsReady r s h = record {
  unpoisoned = h.unpoisoned;
  distinct = insert-Distinct s.records (from_record r) r h.distinct;
  keyed = insert-IsKeyed s.records r h.keyed;
}

drop_record-IsReady :
    (k : TrustRecordKey) (s : LocalStorage)
    → IsReady s
    → IsReady (record s { records = HashMap.remove s.records k })
drop_record-IsReady k s h = record {
  unpoisoned = h.unpoisoned;
  distinct = remove-Distinct s.records k h.distinct;
  keyed = remove-IsKeyed s.records k h.keyed;
}

module _ (s : LocalStorage) (h : IsReady s) where
  find_ready : (q : TrustRecordQuery) → find_by_query q s ≡ (ok (view s (from_query q)), s)
  unfolding find_by_query view
  find_ready q = simp (h.unpoisoned, find-get q s.records h.keyed)

  create_new-eq :
      (r : TrustRecord)
      → view s (from_record r) ≡ none
      → create r s ≡ (ok tt, record s { records = HashMap.insert s.records (from_record r) r })
  unfolding create view HashMap.contains_key
  create_new-eq r e = ground arith

  create_new :
      (r : TrustRecord)
      → view s (from_record r) ≡ none
      → ((create r s).0 ≡ ok tt)
        × IsReady (create r s).1
        × ((j : TrustRecordKey)
            → view (create r s).1 j ≡ put by_key (view s) (from_record r) (some r) j)
  unfolding view
  create_new r e =
      rw (create_new-eq r e)
        (refl, put_record-IsReady r s h, λ j. get-insert s.records (from_record r) j r)

  create_old :
      (r old : TrustRecord)
      → view s (from_record r) ≡ some old
      → FailsWith already_exists (create r s).0 × ((create r s).1 ≡ s)
  unfolding create view HashMap.contains_key
  create_old r old e = simp (h.unpoisoned, e) (refl, refl)

  update_old-eq :
      (r old : TrustRecord)
      → view s (from_record r) ≡ some old
      → update r s ≡ (ok tt, record s { records = HashMap.insert s.records (from_record r) r })
  unfolding update view HashMap.contains_key
  update_old-eq r old e = ground arith

  update_old :
      (r old : TrustRecord)
      → view s (from_record r) ≡ some old
      → ((update r s).0 ≡ ok tt)
        × IsReady (update r s).1
        × ((j : TrustRecordKey)
            → view (update r s).1 j ≡ put by_key (view s) (from_record r) (some r) j)
  unfolding view
  update_old r old e =
      rw (update_old-eq r old e)
        (refl, put_record-IsReady r s h, λ j. get-insert s.records (from_record r) j r)

  update_new :
      (r : TrustRecord)
      → view s (from_record r) ≡ none
      → FailsWith not_found (update r s).0 × ((update r s).1 ≡ s)
  unfolding update view HashMap.contains_key
  update_new r e = simp (h.unpoisoned, e) (refl, refl)

  delete_old-eq :
      (q : TrustRecordQuery) (old : TrustRecord)
      → view s (from_query q) ≡ some old
      → delete q s ≡ (ok tt, record s { records = HashMap.remove s.records (from_query q) })
  unfolding delete view HashMap.contains_key
  delete_old-eq q old e = ground arith

  delete_old :
      (q : TrustRecordQuery) (old : TrustRecord)
      → view s (from_query q) ≡ some old
      → ((delete q s).0 ≡ ok tt)
        × IsReady (delete q s).1
        × ((j : TrustRecordKey) → view (delete q s).1 j ≡ put by_key (view s) (from_query q) none j)
  unfolding view
  delete_old q old e =
      rw (delete_old-eq q old e)
        (refl, drop_record-IsReady (from_query q) s h, λ j. get-remove s.records (from_query q) j)

  delete_new-eq :
      (q : TrustRecordQuery)
      → view s (from_query q) ≡ none
      → delete q s ≡ (
        err (record_not_found (query_text "Record not found: " q)),
        record s { records = HashMap.remove s.records (from_query q) },
      )
  unfolding delete view HashMap.contains_key
  delete_new-eq q e = ground arith

  delete_new :
      (q : TrustRecordQuery)
      → view s (from_query q) ≡ none
      → FailsWith not_found (delete q s).0
        × IsReady (delete q s).1
        × ((j : TrustRecordKey) → view (delete q s).1 j ≡ view s j)
  unfolding view
  delete_new q e = rw (delete_new-eq q e) (
    refl,
    drop_record-IsReady (from_query q) s h,
    λ j. get-remove_absent s.records (from_query q) j e,
  )

  read_old :
      (q : TrustRecordQuery) (r : TrustRecord)
      → view s (from_query q) ≡ some r
      → read q s ≡ (ok r, s)
  unfolding read view
  read_old q r e = simp (h.unpoisoned, find-get q s.records h.keyed, e)

  read_new :
      (q : TrustRecordQuery)
      → view s (from_query q) ≡ none
      → FailsWith not_found (read q s).0 × ((read q s).1 ≡ s)
  unfolding read view
  read_new q e = simp (h.unpoisoned, find-get q s.records h.keyed, e) (refl, refl)

  list_ready :
      (l : TrustRecordList) × (list s ≡ (ok l, s))
      × ((r : TrustRecord) → Listed r l.records ↔ (view s (from_record r) ≡ some r))
  unfolding list view
  list_ready = (
    record { records = HashMap.values s.records },
    simp h.unpoisoned,
    λ r. values-get r s.records h.keyed h.distinct,
  )

-- The in-memory storage is a repository: on a storage whose lock is not poisoned, where each record
-- stands once and under its own key, every method does what the contract says and keeps it so.
pub repository-Contract : Contract repository by_key IsReady view
repository-Contract = record {
  find_ready = λ q s h. find_ready s h q;
  create_new = λ r s h. create_new s h r;
  create_old = λ r old s h. create_old s h r old;
  update_old = λ r old s h. update_old s h r old;
  update_new = λ r s h. update_new s h r;
  delete_old = λ q old s h. delete_old s h q old;
  delete_new = λ q s h. delete_new s h q;
  read_old = λ q r s h. read_old s h q r;
  read_new = λ q s h. read_new s h q;
  list_ready = list_ready;
}
