-- ===== src/Storage/Csv/File.antt =====
-- `FileStorage` of trust-registry/src/storage/adapters/csv_file_storage.rs over any file and any CSV
-- reader and writer. A method and a round of the sync task run alone; times are numbers.
use trust_registry_build_pip.Base.{
  ℕ, String, Bool, true, false, List, [], ◌∷◌, map, Option, none, some, Result, ok, err, ok_or,
  map_err, ◌>>=◌, if◌then◌else◌, leb, format,
}
use trust_registry_build_pip.Base.HashMap
use trust_registry_build_pip.Base.HashMap.{HashMap, find}
use trust_registry_build_pip.Domain.Record.{TrustRecord, to_string}
use trust_registry_build_pip.Domain.Key.{
  TrustRecordQuery, TrustRecordKey, key_eq, from_record, from_query, sk,
}
use trust_registry_build_pip.Storage.Repository.{
  RepositoryError, query_failed, serialization_failed, record_not_found, record_already_exists,
  TrustRecordList, Exec, Repository,
}
use trust_registry_build_pip.Storage.Local.{matches_query}
use trust_registry_build_pip.Storage.Csv.Row
use trust_registry_build_pip.Storage.Csv.Row.{TrustRecordCsvRow, TextCodec, into_record}

-- The file at the storage's path: its metadata, of which the time of the last change may be missing,
-- its text, and how it is written. Errors are texts.
pub record File : Type 1 where
  pub State : Type 0
  pub metadata : State → Result String (Result String ℕ)
  pub read_to_string : State → Result String String
  pub write : String → State → Result String (Unit {0}) × State

-- `str::trim`, the CSV reader's rows and the CSV writer's text, with the JSON and base64 of a row.
pub record Csv : Type 0 where
  pub text : TextCodec
  pub trim : String → String
  pub deserialize : String → List (Result String TrustRecordCsvRow)
  pub serialize : List TrustRecordCsvRow → Result String String

abbrev pub Records : Type 0
Records = HashMap TrustRecordKey TrustRecord

pub record FileStorage (F : File) : Type 0 where
  pub file : F.State
  pub records : Records
  pub last_modified : Option ℕ

module _ (V : Csv) where
  -- The loop of `parse_csv` over the rows, from the records before.
  unfoldable pub insert_rows :
      List (Result String TrustRecordCsvRow) → Records → Result String Records
  insert_rows [] records = ok records
  insert_rows (row ∷ rows) records = row >>= into_record V.text >>= λ r.
      insert_rows rows (HashMap.insert records (from_record r) r)

  unfoldable pub parse_csv : String → Result String Records
  unfolding insert_rows
  parse_csv contents = insert_rows (V.deserialize contents) []

  -- The path as `Display` and as `Debug` print it
  module _ (F : File) (path path_debug : String) where
    abbrev pub no_change : Option ℕ → ℕ → Bool
    no_change none modified = false
    no_change (some previous) modified = leb modified previous

    abbrev pub modified_of : F.State → Result String ℕ
    modified_of file =
        map_err (λ e. format ("file_path: " ∷ path_debug ∷ ", error: " ∷ e ∷ [])) (F.metadata file)
        >>= λ modified. modified

    abbrev pub load_from : F.State → ℕ → Bool → Result String (Option (Records × ℕ))
    load_from file modified true = ok none
    load_from file modified false = F.read_to_string file >>= λ contents.
        parse_csv (V.trim contents) >>= λ records. ok (some (records, modified))

    unfoldable pub load_if_modified : F.State → Option ℕ → Result String (Option (Records × ℕ))
    unfolding parse_csv
    load_if_modified file last_seen =
        modified_of file >>= λ modified. load_from file modified (no_change last_seen modified)

    abbrev pub loaded_at : F.State → Option (Records × ℕ) → Result String (FileStorage F)
    loaded_at file none = err (format ("unable to load trust records from " ∷ path ∷ []))
    loaded_at file (some (records, modified)) =
        ok (record { file = file; records = records; last_modified = some modified })

    unfoldable pub try_new : F.State → Result String (FileStorage F)
    unfolding load_if_modified
    try_new file = load_if_modified file none >>= loaded_at file

    -- What one round of the sync task does with the outcome of the load: an error is logged.
    abbrev pub synced : FileStorage F → Result String (Option (Records × ℕ)) → FileStorage F
    synced s (ok (some (records, modified))) = record s {
      records = records;
      last_modified = some modified;
    }
    synced s (ok none) = s
    synced s (err e) = s

    -- One round of the loop of `spawn_sync_task`
    unfoldable pub sync : FileStorage F → FileStorage F
    unfolding load_if_modified
    sync s = synced s (load_if_modified s.file s.last_modified)

  module _ (F : File) where
    abbrev pub touched :
        FileStorage F
        → Result String (Result String ℕ)
        → Result RepositoryError (Unit {0}) × FileStorage F
    touched s (err e) = (err (query_failed (format ("Failed to get file metadata: " ∷ e ∷ []))), s)
    touched s (ok (err e)) =
        (err (query_failed (format ("Failed to get modified time: " ∷ e ∷ []))), s)
    touched s (ok (ok modified)) = (ok tt, record s { last_modified = some modified })

    abbrev pub written :
        FileStorage F
        → Result String (Unit {0}) × F.State
        → Result RepositoryError (Unit {0}) × FileStorage F
    written s (err e, file) = (
      err (query_failed (format ("Failed to write CSV file: " ∷ e ∷ []))),
      record s { file = file },
    )
    written s (ok _, file) = touched (record s { file = file }) (F.metadata file)

    abbrev pub write_data :
        FileStorage F → Result String String → Result RepositoryError (Unit {0}) × FileStorage F
    write_data s (err e) = (err (serialization_failed e), s)
    write_data s (ok csv_data) = written s (F.write csv_data s.file)

    unfoldable pub write_to_file : Exec (FileStorage F) (Unit {0})
    write_to_file s =
        write_data s (V.serialize (map (Row.from_record V.text) (HashMap.values s.records)))

    abbrev found : TrustRecordQuery → FileStorage F → Option TrustRecord
    found q s = find (λ r. matches_query r q) (HashMap.values s.records)

    unfoldable pub find_by_query : TrustRecordQuery → Exec (FileStorage F) (Option TrustRecord)
    find_by_query q s = (ok (found q s), s)

    unfoldable pub create : TrustRecord → Exec (FileStorage F) (Unit {0})
    unfolding write_to_file
    create r s =
        if HashMap.contains_key s.records (from_record r)
        then (
          err (record_already_exists (format ("Record already exists: " ∷ to_string r ∷ []))),
          s,
        )
        else write_to_file (record s { records = HashMap.insert s.records (from_record r) r })

    unfoldable pub update : TrustRecord → Exec (FileStorage F) (Unit {0})
    unfolding write_to_file
    update r s =
        if HashMap.contains_key s.records (from_record r)
        then write_to_file (record s { records = HashMap.insert s.records (from_record r) r })
        else (err (record_not_found (format ("Record not found: " ∷ to_string r ∷ []))), s)

    unfoldable pub delete : TrustRecordQuery → Exec (FileStorage F) (Unit {0})
    unfolding write_to_file
    delete q s =
        let key = from_query q in
        let left = record s { records = HashMap.remove s.records key } in
        if HashMap.contains_key s.records key
        then write_to_file left
        else (err (record_not_found (format ("Record not found: " ∷ sk key ∷ []))), left)

    unfoldable pub list : Exec (FileStorage F) TrustRecordList
    list s = (ok (record { records = HashMap.values s.records }), s)

    abbrev pub query_text : TrustRecordQuery → String
    query_text q = format (
        "Record not found: " ∷ q.entity_id ∷ "|" ∷ q.authority_id ∷ "|" ∷ q.action ∷ "|"
        ∷ q.resource ∷ [])

    unfoldable pub read : TrustRecordQuery → Exec (FileStorage F) TrustRecord
    read q s = (ok_or (found q s) (record_not_found (query_text q)), s)

    -- `impl TrustRecordAdminRepository for FileStorage`
    abbrev pub repository : Repository
    repository = record {
      Store = FileStorage F;
      find_by_query = find_by_query;
      create = create;
      update = update;
      delete = delete;
      list = list;
      read = read;
    }
