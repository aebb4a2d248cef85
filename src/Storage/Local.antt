-- ===== src/Storage/Local.antt =====
-- `LocalStorage` of trust-registry/src/storage/adapters/local_storage.rs. The lock is a flag: a
-- thread that panics while it writes leaves it poisoned.
pub mod Keyed
pub mod Laws
pub mod Loading
use trust_registry_build_pip.Base.{
  String, Bool, true, false, ◌&&◌, List, [], ◌∷◌, Option, none, some, Result, ok, err, ok_or,
  if◌then◌else◌, ◌==◌, string_eq, format,
}
use trust_registry_build_pip.Base.HashMap
use trust_registry_build_pip.Base.HashMap.{HashMap, find}
use trust_registry_build_pip.Domain.Record.{TrustRecord}
use trust_registry_build_pip.Domain.Key.{
  TrustRecordQuery, TrustRecordKey, key_eq, from_record, from_query, sk,
}
use trust_registry_build_pip.Storage.Repository.{
  RepositoryError, record_not_found, record_already_exists, lock_poisoned, TrustRecordList, Exec,
  Repository,
}

pub record LocalStorage : Type 0 where
  pub records : HashMap TrustRecordKey TrustRecord
  pub poisoned : Bool

unfoldable pub new : LocalStorage
new = record { records = []; poisoned = false }

-- `lock().map_err(|_| LockPoisoned)?`, then the rest of the method
abbrev pub locked : {A : Type 0} → Exec LocalStorage A → Exec LocalStorage A
locked body s = if s.poisoned then (err lock_poisoned, s) else body s

unfoldable pub save : TrustRecord → Exec LocalStorage (Unit {0})
save record_ = locked λ s.
    let key = from_record record_ in
    elim (HashMap.get s.records key) [
      | some _ ↦ (err (record_already_exists (sk key)), s)
      | none ↦ (ok tt, record s { records = HashMap.insert s.records key record_ })
    ]

insert_all : List TrustRecord → LocalStorage → LocalStorage
insert_all [] s = s
insert_all (r ∷ rs) s =
    insert_all rs (record s { records = HashMap.insert s.records (from_record r) r })

-- The lock of a new storage is not poisoned.
unfoldable pub with_records : List TrustRecord → Result RepositoryError LocalStorage
unfolding insert_all new
with_records records = ok (insert_all records new)

unfoldable pub clear : Exec LocalStorage (Unit {0})
clear = locked λ s. (ok tt, record s { records = [] })

abbrev pub matches_query : TrustRecord → TrustRecordQuery → Bool
matches_query r q =
    r.entity_id == q.entity_id
    && r.authority_id == q.authority_id
    && r.action == q.action
    && r.resource == q.resource

abbrev found : TrustRecordQuery → LocalStorage → Option TrustRecord
found q s = find (λ r. matches_query r q) (HashMap.values s.records)

unfoldable pub find_by_query : TrustRecordQuery → Exec LocalStorage (Option TrustRecord)
find_by_query q = locked λ s. (ok (found q s), s)

abbrev pub record_text : String → TrustRecord → String
record_text what r =
    format (what ∷ r.authority_id ∷ "#" ∷ r.action ∷ "#" ∷ r.resource ∷ "#" ∷ r.entity_id ∷ [])

abbrev pub query_text : String → TrustRecordQuery → String
query_text what q =
    format (what ∷ q.authority_id ∷ "#" ∷ q.action ∷ "#" ∷ q.resource ∷ "#" ∷ q.entity_id ∷ [])

unfoldable pub create : TrustRecord → Exec LocalStorage (Unit {0})
create r = locked λ s.
    if HashMap.contains_key s.records (from_record r)
    then (err (record_already_exists (record_text "Record already exists: " r)), s)
    else (ok tt, record s { records = HashMap.insert s.records (from_record r) r })

unfoldable pub update : TrustRecord → Exec LocalStorage (Unit {0})
update r = locked λ s.
    if HashMap.contains_key s.records (from_record r)
    then (ok tt, record s { records = HashMap.insert s.records (from_record r) r })
    else (err (record_not_found (record_text "Record not found: " r)), s)

-- `remove` returns the value that it took out.
unfoldable pub delete : TrustRecordQuery → Exec LocalStorage (Unit {0})
delete q = locked λ s.
    let left = record s { records = HashMap.remove s.records (from_query q) } in
    if HashMap.contains_key s.records (from_query q)
    then (ok tt, left)
    else (err (record_not_found (query_text "Record not found: " q)), left)

unfoldable pub list : Exec LocalStorage TrustRecordList
list = locked λ s. (ok (record { records = HashMap.values s.records }), s)

unfoldable pub read : TrustRecordQuery → Exec LocalStorage TrustRecord
read q = locked λ s. (ok_or (found q s) (record_not_found (query_text "Record not found: " q)), s)

-- `impl TrustRecordAdminRepository for LocalStorage`
abbrev pub repository : Repository
repository = record {
  Store = LocalStorage;
  find_by_query = find_by_query;
  create = create;
  update = update;
  delete = delete;
  list = list;
  read = read;
}
