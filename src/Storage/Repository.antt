-- ===== src/Storage/Repository.antt =====
-- trust-registry/src/storage/repository.rs: errors, lists, and the two repository traits with the
-- contract that their clients rely on.
use trust_registry_build_pip.Base.{
  String, Bool, true, false, List, [], ◌∷◌, ◌≡◌, ◌↔◌, arith, ◌⊎◌, Option, none, some, Result, ok,
  err, if◌then◌else◌, ◌==◌, string_eq, format,
}
use text.Mathlib.TextEquality.{eq_iff}
use trust_registry_build_pip.Domain.Record.{TrustRecord}
use trust_registry_build_pip.Domain.Key.{
  TrustRecordQuery, TrustRecordKey, key_eq, key_beq, sk, key_beq_iff, from_record, from_query,
}

pub data RepositoryError : Type 0 where
  connection_failed query_failed serialization_failed : String → RepositoryError
  record_not_found record_already_exists validation_error : String → RepositoryError
  lock_poisoned : RepositoryError

-- `Display` of an error, by `thiserror`
unfoldable pub error_to_string : RepositoryError → String
error_to_string (connection_failed m) = format ("Connection failed: " ∷ m ∷ [])
error_to_string (query_failed m) = format ("Query failed: " ∷ m ∷ [])
error_to_string (serialization_failed m) = format ("Serialization failed: " ∷ m ∷ [])
error_to_string (record_not_found m) = format ("Record not found: " ∷ m ∷ [])
error_to_string (record_already_exists m) = format ("Record already exists: " ∷ m ∷ [])
error_to_string (validation_error m) = format ("Validation error: " ∷ m ∷ [])
error_to_string lock_poisoned = "Lock poisoned"

pub record TrustRecordList : Type 0 where
  pub records : List TrustRecord

-- A method over a shared store: its outcome, and the store that it leaves.
abbrev pub Exec : Type 0 → Type 0 → Type 0
Exec S A = S → Result RepositoryError A × S

-- `TrustRecordRepository` and `TrustRecordAdminRepository`
pub record Repository : Type 1 where
  pub Store : Type 0
  pub find_by_query : TrustRecordQuery → Exec Store (Option TrustRecord)
  pub create : TrustRecord → Exec Store (Unit {0})
  pub update : TrustRecord → Exec Store (Unit {0})
  pub delete : TrustRecordQuery → Exec Store (Unit {0})
  pub list : Exec Store TrustRecordList
  pub read : TrustRecordQuery → Exec Store TrustRecord

-- What a client can know of a store: the record under each key.
abbrev pub View : Type 0
View = TrustRecordKey → Option TrustRecord

-- Which keys share a place in a store.
pub record Slots : Type 0 where
  pub same : TrustRecordKey → TrustRecordKey → Bool
  pub same_self : (k : TrustRecordKey) → same k k ≡ true

pub same-by_key : (k : TrustRecordKey) → key_beq k k ≡ true
same-by_key k = ground (arith, key_beq_iff k k)

abbrev pub by_key : Slots
by_key = record { same = key_beq; same_self = same-by_key }

pub same-by_sort_key : (k : TrustRecordKey) → sk k == sk k ≡ true
same-by_sort_key k = ground (arith, eq_iff (sk k) (sk k))

abbrev pub by_sort_key : Slots
by_sort_key = record { same = λ a b. sk a == sk b; same_self = same-by_sort_key }

abbrev pub put : Slots → View → TrustRecordKey → Option TrustRecord → View
put N view k o j = if N.same k j then o else view j

pub put_self :
    (N : Slots) (v : View) (k : TrustRecordKey) (o : Option TrustRecord) → put N v k o k ≡ o
put_self N v k o = rw N.same_self

pub put_ne :
    (N : Slots) (v : View) (k j : TrustRecordKey) (o : Option TrustRecord)
    → N.same k j ≡ false
    → put N v k o j ≡ v j
put_ne N v k j o ne = rw ne

abbrev pub already_exists : RepositoryError → Bool
already_exists (record_already_exists m) = true
already_exists _ = false

abbrev pub not_found : RepositoryError → Bool
not_found (record_not_found m) = true
not_found _ = false

-- The outcome is an error with the given test.
abbrev pub FailsWith : {A : Type 0} → (RepositoryError → Bool) → Result RepositoryError A → Type 0
FailsWith test (ok a) = ⊥
FailsWith test (err e) = test e ≡ true

-- The record is in the list.
abbrev pub Listed : TrustRecord → List TrustRecord → Type 0
Listed r [] = ⊥
Listed r (x ∷ xs) = (x ≡ r) ⊎ Listed r xs

-- A ready store is consistent and its medium answers. A write shows under every key that shares the
-- place of its own. On ready stores every method is total: it
-- succeeds or fails as the view of its key says, and a store stays ready.
pub record Contract (R : Repository) (N : Slots) (IsReady : R.Store → Type 0)
    (view : R.Store → View) : Type 0 where
  pub find_ready :
      (q : TrustRecordQuery) (s : R.Store)
      → IsReady s
      → R.find_by_query q s ≡ (ok (view s (from_query q)), s)
  pub create_new :
      (r : TrustRecord) (s : R.Store)
      → IsReady s
      → view s (from_record r) ≡ none
      → ((R.create r s).0 ≡ ok tt)
        × IsReady (R.create r s).1
        × ((j : TrustRecordKey)
            → view (R.create r s).1 j ≡ put N (view s) (from_record r) (some r) j)
  pub create_old :
      (r old : TrustRecord) (s : R.Store)
      → IsReady s
      → view s (from_record r) ≡ some old
      → FailsWith already_exists (R.create r s).0 × ((R.create r s).1 ≡ s)
  pub update_old :
      (r old : TrustRecord) (s : R.Store)
      → IsReady s
      → view s (from_record r) ≡ some old
      → ((R.update r s).0 ≡ ok tt)
        × IsReady (R.update r s).1
        × ((j : TrustRecordKey)
            → view (R.update r s).1 j ≡ put N (view s) (from_record r) (some r) j)
  pub update_new :
      (r : TrustRecord) (s : R.Store)
      → IsReady s
      → view s (from_record r) ≡ none
      → FailsWith not_found (R.update r s).0 × ((R.update r s).1 ≡ s)
  pub delete_old :
      (q : TrustRecordQuery) (old : TrustRecord) (s : R.Store)
      → IsReady s
      → view s (from_query q) ≡ some old
      → ((R.delete q s).0 ≡ ok tt)
        × IsReady (R.delete q s).1
        × ((j : TrustRecordKey) → view (R.delete q s).1 j ≡ put N (view s) (from_query q) none j)
  pub delete_new :
      (q : TrustRecordQuery) (s : R.Store)
      → IsReady s
      → view s (from_query q) ≡ none
      → FailsWith not_found (R.delete q s).0
        × IsReady (R.delete q s).1
        × ((j : TrustRecordKey) → view (R.delete q s).1 j ≡ view s j)
  pub read_old :
      (q : TrustRecordQuery) (r : TrustRecord) (s : R.Store)
      → IsReady s
      → view s (from_query q) ≡ some r
      → R.read q s ≡ (ok r, s)
  pub read_new :
      (q : TrustRecordQuery) (s : R.Store)
      → IsReady s
      → view s (from_query q) ≡ none
      → FailsWith not_found (R.read q s).0 × ((R.read q s).1 ≡ s)
  pub list_ready :
      (s : R.Store)
      → IsReady s
      → (l : TrustRecordList) × (R.list s ≡ (ok l, s))
        × ((r : TrustRecord) → Listed r l.records ↔ (view s (from_record r) ≡ some r))
