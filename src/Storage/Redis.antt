-- ===== src/Storage/Redis.antt =====
-- `RedisStorage` of trust-registry/src/storage/adapters/redis_storage.rs over any connection. The
-- write lock on the connection makes every method one step. The text of a value only passes between
-- `serde_json` and the connection: its type is a parameter.
pub mod Scan
pub mod Medium
pub mod Stores
pub mod Laws
use trust_registry_build_pip.Base.{
  String, ℕ, Bool, List, [], ◌∷◌, ◌++◌, Option, none, some, Result, ok, err, map_err, ◌>>=◌,
  if◌then◌else◌, nat_beq, format, zero, suc, unwrap_or,
}
use trust_registry_build_pip.Domain.Record.{TrustRecord}
use trust_registry_build_pip.Domain.Key.{
  TrustRecordQuery, from_record, from_query, sk, tr_sk_prefix,
}
use trust_registry_build_pip.Storage.Repository.{
  RepositoryError, query_failed, serialization_failed, record_not_found, record_already_exists,
  TrustRecordList, Exec, Repository,
}
use trust_registry_build_pip.Storage.Local.{record_text, query_text}
use trust_registry_build_pip.Storage.KeyValue.{Codec}

-- The commands that the storage sends, each with the text of its error. `del` answers how many keys
-- it removed. `scan` takes a cursor and a pattern, and answers the next cursor and some keys.
pub record Connection (V : Type 0) : Type 1 where
  pub State : Type 0
  pub get : String → State → Result String (Option V)
  pub exists : String → State → Result String Bool
  pub set : String → V → State → Result String (Unit {0}) × State
  pub del : String → State → Result String ℕ × State
  pub scan : ℕ → String → State → Result String (ℕ × List String)

-- `RepositoryError::QueryFailed(format!("Redis … failed: {e}"))`
abbrev pub failed : String → String → RepositoryError
failed command e = query_failed (format ("Redis " ∷ command ∷ " failed: " ∷ e ∷ []))

module _ {V : Type 0} (C : Codec V) (K : Connection V) where
  abbrev pub serialize_record : TrustRecord → Result RepositoryError V
  serialize_record r =
      map_err (λ e. serialization_failed (format ("Failed to serialize record: " ∷ e ∷ [])))
        (C.encode r)

  abbrev pub deserialize_record : V → Result RepositoryError TrustRecord
  deserialize_record data_ =
      map_err (λ e. serialization_failed (format ("Failed to deserialize record: " ∷ e ∷ [])))
        (C.decode data_)

  abbrev pub found : Option V → Result RepositoryError (Option TrustRecord)
  found none = ok none
  found (some data_) = deserialize_record data_ >>= λ r. ok (some r)

  unfoldable pub find_by_query : TrustRecordQuery → Exec K.State (Option TrustRecord)
  find_by_query q s = (map_err (failed "GET") (K.get (sk (from_query q)) s) >>= found, s)

  abbrev pub finish :
      Result String (Unit {0}) × K.State → Result RepositoryError (Unit {0}) × K.State
  finish (e, s) = (map_err (failed "SET") e, s)

  -- `let value = serialize_record(&record)?; conn.set(&key, value)`
  abbrev pub set_value : String → Result RepositoryError V → Exec K.State (Unit {0})
  set_value key (err e) s = (err e, s)
  set_value key (ok value) s = finish (K.set key value s)

  abbrev pub create_if : Result String Bool → TrustRecord → Exec K.State (Unit {0})
  create_if (err e) r s = (err (failed "EXISTS" e), s)
  create_if (ok exists) r s =
      if exists
      then (err (record_already_exists (record_text "Record already exists: " r)), s)
      else set_value (sk (from_record r)) (serialize_record r) s

  unfoldable pub create : TrustRecord → Exec K.State (Unit {0})
  create r s = create_if (K.exists (sk (from_record r)) s) r s

  abbrev pub update_if : Result String Bool → TrustRecord → Exec K.State (Unit {0})
  update_if (err e) r s = (err (failed "EXISTS" e), s)
  update_if (ok exists) r s =
      if exists
      then set_value (sk (from_record r)) (serialize_record r) s
      else (err (record_not_found (record_text "Record not found: " r)), s)

  unfoldable pub update : TrustRecord → Exec K.State (Unit {0})
  update r s = update_if (K.exists (sk (from_record r)) s) r s

  abbrev pub deleted : TrustRecordQuery → Result String ℕ → Result RepositoryError (Unit {0})
  deleted q (err e) = err (failed "DEL" e)
  deleted q (ok count) =
      if nat_beq count 0 then err (record_not_found (query_text "Record not found: " q)) else ok tt

  unfoldable pub delete : TrustRecordQuery → Exec K.State (Unit {0})
  delete q s = let done = K.del (sk (from_query q)) s in (deleted q done.0, done.1)

  abbrev pub present : TrustRecordQuery → Option V → Result RepositoryError TrustRecord
  present q none = err (record_not_found (query_text "Record not found: " q))
  present q (some data_) = deserialize_record data_

  unfoldable pub read : TrustRecordQuery → Exec K.State TrustRecord
  read q s = (map_err (failed "GET") (K.get (sk (from_query q)) s) >>= present q, s)

  -- The inner loop of `list`: a key that is gone is skipped, as is a value that does not
  -- deserialize.
  abbrev pub push_record :
      Result String TrustRecord
      → Result RepositoryError (List TrustRecord)
      → Result RepositoryError (List TrustRecord)
  push_record (err e) rest = rest
  push_record (ok r) rest = rest >>= λ rs. ok (r ∷ rs)

  abbrev pub push_data :
      Result String (Option V)
      → Result RepositoryError (List TrustRecord)
      → Result RepositoryError (List TrustRecord)
  push_data (err e) rest = err (failed "GET" e)
  push_data (ok none) rest = rest
  push_data (ok (some data_)) rest = push_record (C.decode data_) rest

  unfoldable pub fetch : List String → K.State → Result RepositoryError (List TrustRecord)
  fetch [] s = ok []
  fetch (key ∷ keys) s = push_data (K.get key s) (fetch keys s)

  abbrev pub pattern_ : String
  pattern_ = format (tr_sk_prefix ∷ "*" ∷ [])

  -- One round of the outer loop, before what the rounds after it give: the loop ends at cursor 0.
  abbrev pub join :
      ℕ
      → Result RepositoryError (List TrustRecord)
      → Option (Result RepositoryError (List TrustRecord))
      → Option (Result RepositoryError (List TrustRecord))
  join cursor (err e) rest = some (err e)
  join zero (ok rs) rest = some (ok rs)
  join (suc cursor) (ok rs) none = none
  join (suc cursor) (ok rs) (some rest) = some (rest >>= λ more. ok (rs ++ more))

  abbrev pub take_page :
      Result String (ℕ × List String)
      → (ℕ → Option (Result RepositoryError (List TrustRecord)))
      → K.State
      → Option (Result RepositoryError (List TrustRecord))
  take_page (err e) rest s = some (err (failed "SCAN" e))
  take_page (ok (cursor, keys)) rest s = join cursor (fetch keys s) (rest cursor)

  -- The outer loop of `list` from a cursor; `none` when the fuel does not last.
  unfoldable pub scan_loop : ℕ → ℕ → K.State → Option (Result RepositoryError (List TrustRecord))
  scan_loop zero cursor s = none
  scan_loop (suc fuel) cursor s =
      take_page (K.scan cursor pattern_ s) (λ next. scan_loop fuel next s) s

  -- With fuel for the rounds that a scan of the state takes.
  unfoldable pub list : (K.State → ℕ) → Exec K.State TrustRecordList
  list rounds s = (
    unwrap_or (scan_loop (rounds s) 0 s) (err (query_failed "out of fuel")) >>= λ rs.
        ok (record { records = rs }),
    s,
  )

  -- `impl TrustRecordAdminRepository for RedisStorage`
  abbrev pub repository : (K.State → ℕ) → Repository
  repository rounds = record {
    Store = K.State;
    find_by_query = find_by_query;
    create = create;
    update = update;
    delete = delete;
    list = list rounds;
    read = read;
  }
