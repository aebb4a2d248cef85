-- ===== src/Storage/Csv/Unwritten.antt =====
-- What `FileStorage::create` leaves when its file cannot be written.
use trust_registry_build_pip.Base.{
  String, map, ◌≡◌, refl, ap, ◌∙◌, none, some, Result, ok, err, format, [], ◌∷◌, if◌then◌else◌,
}
use trust_registry_build_pip.Base.HashMap
use trust_registry_build_pip.Base.HashMap.{HashMap, get-insert}
use trust_registry_build_pip.Domain.Record.{TrustRecord}
use trust_registry_build_pip.Domain.Key.{key_eq, key_beq_iff, from_record}
use trust_registry_build_pip.Storage.Repository.{query_failed}
use trust_registry_build_pip.Storage.Csv.Row
use trust_registry_build_pip.Storage.Csv.Row.{TrustRecordCsvRow}
use trust_registry_build_pip.Storage.Csv.File.{File, Csv, FileStorage, create, write_data, written}

module _ (V : Csv) (F : File) (s : FileStorage F) (r : TrustRecord) where
  abbrev pub inserted : FileStorage F
  inserted = record s { records = HashMap.insert s.records (from_record r) r }

  written-failed :
      (outcome : Result String (Unit {0})) (file : F.State) (e : String)
      → outcome ≡ err e
      → written V F inserted (outcome, file) ≡ (
        err (query_failed (format ("Failed to write CSV file: " ∷ e ∷ []))),
        record inserted { file = file },
      )
  written-failed outcome file e failed = simp failed

  -- Where the file cannot be written, creating a record under a new key returns the error of the
  -- write, but the record stands in memory.
  pub create-unwritten :
      (csv_data e : String)
      → HashMap.get s.records (from_record r) ≡ none
      → V.serialize (map (Row.from_record V.text) (HashMap.values inserted.records)) ≡ ok csv_data
      → (F.write csv_data s.file).0 ≡ err e
      → ((create V F r s).0 ≡ err (query_failed (format ("Failed to write CSV file: " ∷ e ∷ []))))
        × (HashMap.get (create V F r s).1.records (from_record r) ≡ some r)
  unfolding create HashMap.contains_key
  create-unwritten csv_data e new text failed =
      let done : create V F r s ≡ (
        err (query_failed (format ("Failed to write CSV file: " ∷ e ∷ []))),
        record inserted { file = (F.write csv_data s.file).1 },
      ) =
        simp new (
          ap (write_data V F inserted) text
          ∙ written-failed (F.write csv_data s.file).0 (F.write csv_data s.file).1 e failed) in
      rw done (
        refl,
        get-insert s.records (from_record r) (from_record r) r
            ∙ ap (λ b. if b then some r else HashMap.get s.records (from_record r))
                ((key_beq_iff (from_record r) (from_record r)).1 refl),
      )
