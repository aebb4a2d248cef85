-- ===== src/Storage/Csv/Laws.antt =====
-- `FileStorage` meets the contract of a repository while its file can be written.
use trust_registry_build_pip.Base.{
  ℕ, String, ◌≡◌, ◌↔◌, refl, ap, ◌∙◌, none, some, map, [], ◌∷◌, format, Result, ok, err,
}
use trust_registry_build_pip.Base.HashMap
use trust_registry_build_pip.Base.HashMap.{
  HashMap, Distinct, find, get-insert, get-remove, get-remove_absent, insert-Distinct,
  remove-Distinct,
}
use trust_registry_build_pip.Domain.Record.{TrustRecord}
use trust_registry_build_pip.Domain.Key.{
  TrustRecordQuery, TrustRecordKey, key_eq, from_record, from_query, sk,
}
use trust_registry_build_pip.Storage.Repository.{
  TrustRecordList, Listed, record_not_found, Contract, View, put, by_key, FailsWith, already_exists,
  not_found,
}
use trust_registry_build_pip.Storage.Local.Keyed.{
  IsKeyed, insert-IsKeyed, remove-IsKeyed, find-get, values-get,
}
use trust_registry_build_pip.Storage.Csv.Row
use trust_registry_build_pip.Storage.Csv.Row.{TrustRecordCsvRow}
use trust_registry_build_pip.Storage.Csv.File.{
  File, Csv, FileStorage, repository, find_by_query, create, update, delete, list, read,
  write_to_file, write_data, written,
}
use trust_registry_build_pip.Storage.Csv.Medium.{Lawful, Serializes}

module _ (V : Csv) (serializes : Serializes V) (F : File) (Answers : F.State → Type 0)
    (modified_at : F.State → ℕ) (text : F.State → String)
    (lawful : Lawful F Answers modified_at text) where
  pub record IsReady (s : FileStorage F) : Type 0 where
    pub answers : Answers s.file
    pub distinct : Distinct s.records
    pub keyed : IsKeyed s.records

  unfoldable pub view : FileStorage F → View
  view s = HashMap.get s.records

  -- The text of the records, and the storage after it was written.
  abbrev pub csv_data : FileStorage F → String
  csv_data s = (serializes (map (Row.from_record V.text) (HashMap.values s.records))).0

  abbrev pub saved : FileStorage F → FileStorage F
  saved s =
      let file = (F.write (csv_data s) s.file).1 in
      record s { file = file; last_modified = some (modified_at file) }

  written-ok :
      (s : FileStorage F) (outcome : Result String (Unit {0})) (file : F.State) (modified : ℕ)
      → outcome ≡ ok tt
      → F.metadata file ≡ ok (ok modified)
      → written V F s (outcome, file)
        ≡ (ok tt, record s { file = file; last_modified = some modified })
  written-ok s outcome file modified done at = simp (done, at)

  pub write_to_file-saved :
      (s : FileStorage F) → Answers s.file → write_to_file V F s ≡ (ok tt, saved s)
  unfolding write_to_file
  write_to_file-saved s answers =
      let done = lawful.write_answers (csv_data s) s.file answers in
      let file = (F.write (csv_data s) s.file).1 in
      ap (write_data V F s) (serializes (map (Row.from_record V.text) (HashMap.values s.records))).1
      ∙ written-ok s (F.write (csv_data s) s.file).0 file (modified_at file) done.0
          (lawful.metadata_answers file done.1)

  saved-IsReady : (s : FileStorage F) → IsReady s → IsReady (saved s)
  saved-IsReady s h = record {
    answers = (lawful.write_answers (csv_data s) s.file h.answers).1;
    distinct = h.distinct;
    keyed = h.keyed;
  }

  abbrev pub put_record : TrustRecord → FileStorage F → FileStorage F
  put_record r s = record s { records = HashMap.insert s.records (from_record r) r }

  abbrev drop_record : TrustRecordKey → FileStorage F → FileStorage F
  drop_record k s = record s { records = HashMap.remove s.records k }

  put_record-IsReady : (r : TrustRecord) (s : FileStorage F) → IsReady s → IsReady (put_record r s)
  put_record-IsReady r s h = record {
    answers = h.answers;
    distinct = insert-Distinct s.records (from_record r) r h.distinct;
    keyed = insert-IsKeyed s.records r h.keyed;
  }

  drop_record-IsReady :
      (k : TrustRecordKey) (s : FileStorage F) → IsReady s → IsReady (drop_record k s)
  drop_record-IsReady k s h = record {
    answers = h.answers;
    distinct = remove-Distinct s.records k h.distinct;
    keyed = remove-IsKeyed s.records k h.keyed;
  }

  module _ (s : FileStorage F) (h : IsReady s) where
    find_ready : (q : TrustRecordQuery) → find_by_query V F q s ≡ (ok (view s (from_query q)), s)
    unfolding find_by_query view
    find_ready q = simp (find-get q s.records h.keyed)

    create_new-eq :
        (r : TrustRecord)
        → view s (from_record r) ≡ none
        → create V F r s ≡ (ok tt, saved (put_record r s))
    unfolding create view HashMap.contains_key
    create_new-eq r e = simp e (write_to_file-saved (put_record r s) h.answers)

    create_new :
        (r : TrustRecord)
        → view s (from_record r) ≡ none
        → ((create V F r s).0 ≡ ok tt)
          × IsReady (create V F r s).1
          × ((j : TrustRecordKey)
              → view (create V F r s).1 j ≡ put by_key (view s) (from_record r) (some r) j)
    unfolding view
    create_new r e = rw (create_new-eq r e) (
      refl,
      saved-IsReady (put_record r s) (put_record-IsReady r s h),
      λ j. get-insert s.records (from_record r) j r,
    )

    create_old :
        (r old : TrustRecord)
        → view s (from_record r) ≡ some old
        → FailsWith already_exists (create V F r s).0 × ((create V F r s).1 ≡ s)
    unfolding create view HashMap.contains_key
    create_old r old e = simp (e) (refl, refl)

    update_old-eq :
        (r old : TrustRecord)
        → view s (from_record r) ≡ some old
        → update V F r s ≡ (ok tt, saved (put_record r s))
    unfolding update view HashMap.contains_key
    update_old-eq r old e = simp e (write_to_file-saved (put_record r s) h.answers)

    update_old :
        (r old : TrustRecord)
        → view s (from_record r) ≡ some old
        → ((update V F r s).0 ≡ ok tt)
          × IsReady (update V F r s).1
          × ((j : TrustRecordKey)
              → view (update V F r s).1 j ≡ put by_key (view s) (from_record r) (some r) j)
    unfolding view
    update_old r old e = rw (update_old-eq r old e) (
      refl,
      saved-IsReady (put_record r s) (put_record-IsReady r s h),
      λ j. get-insert s.records (from_record r) j r,
    )

    update_new :
        (r : TrustRecord)
        → view s (from_record r) ≡ none
        → FailsWith not_found (update V F r s).0 × ((update V F r s).1 ≡ s)
    unfolding update view HashMap.contains_key
    update_new r e = simp (e) (refl, refl)

    delete_old-eq :
        (q : TrustRecordQuery) (old : TrustRecord)
        → view s (from_query q) ≡ some old
        → delete V F q s ≡ (ok tt, saved (drop_record (from_query q) s))
    unfolding delete view HashMap.contains_key
    delete_old-eq q old e = simp e (write_to_file-saved (drop_record (from_query q) s) h.answers)

    delete_old :
        (q : TrustRecordQuery) (old : TrustRecord)
        → view s (from_query q) ≡ some old
        → ((delete V F q s).0 ≡ ok tt)
          × IsReady (delete V F q s).1
          × ((j : TrustRecordKey)
              → view (delete V F q s).1 j ≡ put by_key (view s) (from_query q) none j)
    unfolding view
    delete_old q old e = rw (delete_old-eq q old e) (
      refl,
      saved-IsReady (drop_record (from_query q) s) (drop_record-IsReady (from_query q) s h),
      λ j. get-remove s.records (from_query q) j,
    )

    delete_new-eq :
        (q : TrustRecordQuery)
        → view s (from_query q) ≡ none
        → delete V F q s ≡ (
          err (record_not_found (format ("Record not found: " ∷ sk (from_query q) ∷ []))),
          drop_record (from_query q) s,
        )
    unfolding delete view HashMap.contains_key
    delete_new-eq q e = simp e

    delete_new :
        (q : TrustRecordQuery)
        → view s (from_query q) ≡ none
        → FailsWith not_found (delete V F q s).0
          × IsReady (delete V F q s).1
          × ((j : TrustRecordKey) → view (delete V F q s).1 j ≡ view s j)
    unfolding view
    delete_new q e = rw (delete_new-eq q e) (
      refl,
      drop_record-IsReady (from_query q) s h,
      λ j. get-remove_absent s.records (from_query q) j e,
    )

    read_old :
        (q : TrustRecordQuery) (r : TrustRecord)
        → view s (from_query q) ≡ some r
        → read V F q s ≡ (ok r, s)
    unfolding read view
    read_old q r e = simp (find-get q s.records h.keyed, e)

    read_new :
        (q : TrustRecordQuery)
        → view s (from_query q) ≡ none
        → FailsWith not_found (read V F q s).0 × ((read V F q s).1 ≡ s)
    unfolding read view
    read_new q e = simp (find-get q s.records h.keyed, e) (refl, refl)

    list_ready :
        (l : TrustRecordList) × (list V F s ≡ (ok l, s))
        × ((r : TrustRecord) → Listed r l.records ↔ (view s (from_record r) ≡ some r))
    unfolding list view
    list_ready = (
      record { records = HashMap.values s.records },
      refl,
      λ r. values-get r s.records h.keyed h.distinct,
    )

  -- The CSV storage is a repository: while its file can be read and written and where each record
  -- stands once and under its own key, every method does what the contract says and keeps it so.
  pub repository-Contract_file : Contract (repository V F) by_key IsReady view
  repository-Contract_file = record {
    find_ready = λ q s h. find_ready s h q;
    create_new = λ r s h. create_new s h r;
    create_old = λ r old s h. create_old s h r old;
    update_old = λ r old s h. update_old s h r old;
    update_new = λ r s h. update_new s h r;
    delete_old = λ q old s h. delete_old s h q old;
    delete_new = λ q s h. delete_new s h q;
    read_old = λ q r s h. read_old s h q r;
    read_new = λ q s h. read_new s h q;
    list_ready = list_ready;
  }
