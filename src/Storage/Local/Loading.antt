-- ===== src/Storage/Local/Loading.antt =====
-- A storage that is built from a list of records.
use trust_registry_build_pip.Base.{
  ◌≡◌, refl, ap, ◌∙◌, List, [], ◌∷◌, Option, none, some, ok, if◌then◌else◌, ◌==◌,
}
use trust_registry_build_pip.Base.HashMap
use trust_registry_build_pip.Base.HashMap.{get-insert}
use trust_registry_build_pip.Domain.Record.{TrustRecord}
use trust_registry_build_pip.Domain.Key.{TrustRecordKey, key_eq, from_record}
use trust_registry_build_pip.Storage.Local.{LocalStorage, new, insert_all, with_records}
use trust_registry_build_pip.Storage.Local.Laws.{IsReady, view, put_record-IsReady}

-- The last record of a list with a key, or what is given.
unfoldable pub last_or : Option TrustRecord → TrustRecordKey → List TrustRecord → Option TrustRecord
last_or found k [] = found
last_or found k (r ∷ rs) = last_or (if from_record r == k then some r else found) k rs

insert_all-IsReady :
    (rs : List TrustRecord) (s : LocalStorage) → IsReady s → IsReady (insert_all rs s)
unfolding insert_all
insert_all-IsReady [] s h = h
insert_all-IsReady (r ∷ rs) s h = insert_all-IsReady rs _ (put_record-IsReady r s h)

insert_all-view :
    (rs : List TrustRecord) (s : LocalStorage) (k : TrustRecordKey)
    → view (insert_all rs s) k ≡ last_or (view s k) k rs
unfolding insert_all view last_or
insert_all-view [] s k = refl
insert_all-view (r ∷ rs) s k =
    insert_all-view rs _ k ∙ ap (λ o. last_or o k rs) (get-insert s.records (from_record r) k r)

new-IsReady : IsReady new
unfolding new
new-IsReady = record { unpoisoned = refl; distinct = tt; keyed = tt }

-- A storage can be built from any list of records. It is ready, and shows under each key the last
-- record of the list with that key.
pub with_records-view :
    (records : List TrustRecord)
    → (s : LocalStorage) × (with_records records ≡ ok s)
      × IsReady s
      × ((k : TrustRecordKey) → view s k ≡ last_or none k records)
unfolding with_records view new HashMap.get
with_records-view records = (
  insert_all records new,
  refl,
  insert_all-IsReady records new new-IsReady,
  insert_all-view records new,
)
