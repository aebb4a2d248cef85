-- ===== src/Storage/Fjall.antt =====
-- `FjallStorage` of trust-registry/src/storage/adapters/fjall_storage.rs over any keyspace. A task
-- that panics on its blocking thread is left out.
pub mod Medium
pub mod Stores
pub mod Laws
use trust_registry_build_pip.Base.{
  String, Bool, List, [], ◌∷◌, Option, none, some, Result, ok, err, ok_or, map_err, ◌>>=◌,
  if◌then◌else◌, not, format,
}
use trust_registry_build_pip.Domain.Record.{TrustRecord}
use trust_registry_build_pip.Domain.Key.{
  TrustRecordQuery, from_record, from_query, sk, tr_sk_prefix,
}
use trust_registry_build_pip.Storage.Repository.{
  RepositoryError, query_failed, serialization_failed, record_not_found, record_already_exists,
  TrustRecordList, Exec, Repository,
}
use trust_registry_build_pip.Storage.KeyValue.{Codec}

-- `fjall::Keyspace`: each call, with the text of its error.
pub record Keyspace (V : Type 0) : Type 1 where
  pub State : Type 0
  pub get : String → State → Result String (Option V)
  pub contains_key : String → State → Result String Bool
  pub insert : String → V → State → Result String (Unit {0}) × State
  pub remove : String → State → Result String (Unit {0}) × State
  pub prefix : String → State → List (Result String (String × V))

abbrev pub query_error : String → RepositoryError
query_error e = query_failed e

module _ {V : Type 0} (C : Codec V) (K : Keyspace V) where
  abbrev pub serialize : TrustRecord → Result RepositoryError V
  serialize r =
      map_err (λ e. serialization_failed (format ("Failed to serialize record: " ∷ e ∷ [])))
        (C.encode r)

  abbrev pub deserialize : V → Result RepositoryError TrustRecord
  deserialize v =
      map_err (λ e. serialization_failed (format ("Failed to deserialize record: " ∷ e ∷ [])))
        (C.decode v)

  -- A value that is there is deserialized.
  abbrev pub found : Option V → Result RepositoryError (Option TrustRecord)
  found none = ok none
  found (some v) = deserialize v >>= λ r. ok (some r)

  unfoldable pub find_by_query : TrustRecordQuery → Exec K.State (Option TrustRecord)
  find_by_query q s = (map_err query_error (K.get (sk (from_query q)) s) >>= found, s)

  -- The last step of a write: its error is a failed query.
  abbrev pub finish :
      Result String (Unit {0}) × K.State → Result RepositoryError (Unit {0}) × K.State
  finish (e, s) = (map_err query_error e, s)

  -- `if test { return Err(error) }`, where the test may fail itself, then the write
  abbrev pub unless :
      Result String Bool → RepositoryError → Exec K.State (Unit {0}) → Exec K.State (Unit {0})
  unless (err e) error write s = (err (query_error e), s)
  unless (ok test) error write s = if test then (err error, s) else write s

  abbrev pub negated : Result String Bool → Result String Bool
  negated (err e) = err e
  negated (ok b) = ok (not b)

  abbrev pub serialized :
      Result RepositoryError V → (V → Exec K.State (Unit {0})) → Exec K.State (Unit {0})
  serialized (err e) write s = (err e, s)
  serialized (ok v) write s = write v s

  unfoldable pub create : TrustRecord → Exec K.State (Unit {0})
  create r s =
      let key = sk (from_record r) in
      serialized (serialize r)
        (λ v.
          unless (K.contains_key key s) (record_already_exists key)
            (λ s. finish (K.insert key v s)))
        s

  unfoldable pub update : TrustRecord → Exec K.State (Unit {0})
  update r s =
      let key = sk (from_record r) in
      serialized (serialize r)
        (λ v.
          unless (negated (K.contains_key key s)) (record_not_found key)
            (λ s. finish (K.insert key v s)))
        s

  unfoldable pub delete : TrustRecordQuery → Exec K.State (Unit {0})
  delete q s =
      let key = sk (from_query q) in
      unless (negated (K.contains_key key s)) (record_not_found key) (λ s. finish (K.remove key s))
        s

  abbrev pub present : RepositoryError → Option V → Result RepositoryError TrustRecord
  present missing none = err missing
  present missing (some v) = deserialize v

  unfoldable pub read : TrustRecordQuery → Exec K.State TrustRecord
  read q s =
      let key = sk (from_query q) in
      (map_err query_error (K.get key s) >>= present (record_not_found key), s)

  -- The loop over the guards: a value that does not deserialize is logged and skipped, a guard that
  -- fails ends the loop.
  abbrev pub take_value :
      Result String TrustRecord
      → Result RepositoryError (List TrustRecord)
      → Result RepositoryError (List TrustRecord)
  take_value (err e) rest = rest
  take_value (ok r) rest = rest >>= λ rs. ok (r ∷ rs)

  abbrev pub take_guard :
      Result String (String × V)
      → Result RepositoryError (List TrustRecord)
      → Result RepositoryError (List TrustRecord)
  take_guard (err e) rest = err (query_error e)
  take_guard (ok (key, v)) rest = take_value (C.decode v) rest

  unfoldable pub collect :
      List (Result String (String × V)) → Result RepositoryError (List TrustRecord)
  collect [] = ok []
  collect (guard ∷ guards) = take_guard guard (collect guards)

  unfoldable pub list : Exec K.State TrustRecordList
  unfolding collect
  list s = (collect (K.prefix tr_sk_prefix s) >>= λ rs. ok (record { records = rs }), s)

  -- `impl TrustRecordAdminRepository for FjallStorage`
  abbrev pub repository : Repository
  repository = record {
    Store = K.State;
    find_by_query = find_by_query;
    create = create;
    update = update;
    delete = delete;
    list = list;
    read = read;
  }
