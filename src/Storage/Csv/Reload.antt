-- ===== src/Storage/Csv/Reload.antt =====
-- What `FileStorage` reads back of what it wrote, and what the sync task does with its own writes.
use trust_registry_build_pip.Base.{
  ℕ, String, ◌≡◌, refl, sym, ap, ◌∙◌, arith, Bool, true, false, none, some, Option, List, map, [],
  ◌∷◌, ok, leb, if◌then◌else◌,
}
use mathlib.Core.Option
use trust_registry_build_pip.Base.HashMap
use trust_registry_build_pip.Base.HashMap.{HashMap, Distinct, get-insert}
use trust_registry_build_pip.Domain.Json.{Value}
use trust_registry_build_pip.Domain.Record.{TrustRecord}
use trust_registry_build_pip.Domain.Key.{TrustRecordKey, key_eq, key_beq, key_beq_iff, from_record}
use trust_registry_build_pip.Storage.Local.Keyed.{IsKeyed}
use trust_registry_build_pip.Storage.Csv.Row
use trust_registry_build_pip.Storage.Csv.Row.{
  TrustRecordCsvRow, Faithful, into_record, normalize, into_record-from_record,
}
use trust_registry_build_pip.Storage.Csv.File.{
  File, Csv, FileStorage, Records, insert_rows, parse_csv, try_new, sync,
}
use trust_registry_build_pip.Storage.Csv.Medium.{Lawful, Serializes}
use trust_registry_build_pip.Storage.Csv.Laws.{IsReady, saved, csv_data}

-- The predicate holds of every row.
abbrev pub Each : (TrustRecordCsvRow → Type 0) → List TrustRecordCsvRow → Type 0
Each P [] = Unit
Each P (row ∷ rows) = P row × Each P rows

-- The reader gives the rows whose fields are `Clean` as they were written, such as rows without
-- spaces around a field, which the reader trims.
abbrev pub ReadsBack : Csv → (TrustRecordCsvRow → Type 0) → Type 0
ReadsBack V Clean =
    (rows : List TrustRecordCsvRow) (t : String)
    → Each Clean rows
    → V.serialize rows ≡ ok t
    → V.deserialize (V.trim t) ≡ map ok rows

abbrev or_before : Option TrustRecord → Option TrustRecord → Option TrustRecord
or_before none o = o
or_before (some r) o = some r

or_before-none : (o : Option TrustRecord) → or_before o none ≡ o
or_before-none none = refl
or_before-none (some r) = refl

leb_self : (n : ℕ) → leb n n ≡ true
leb_self n = ground arith

-- The context of every record is writable.
abbrev pub EachWritable : (Value → Type 0) → List TrustRecord → Type 0
EachWritable Writable [] = Unit
EachWritable Writable (r ∷ rs) = Writable r.context × EachWritable Writable rs

module _ (V : Csv) (Writable : Value → Type 0) (faithful : Faithful V.text Writable) where
  abbrev pub rows_of : Records → List TrustRecordCsvRow
  rows_of m = map (Row.from_record V.text) (HashMap.values m)

  abbrev insert_each : List TrustRecord → Records → Records
  insert_each [] acc = acc
  insert_each (r ∷ rs) acc =
      insert_each rs (HashMap.insert acc (from_record r) (normalize V.text r))

  normalize-key : (r : TrustRecord) → from_record (normalize V.text r) ≡ from_record r
  unfolding from_record
  normalize-key r = refl

  insert_rows-each :
      (rs : List TrustRecord) (acc : Records)
      → EachWritable Writable rs
      → insert_rows V (map ok (map (Row.from_record V.text) rs)) acc ≡ ok (insert_each rs acc)
  unfolding insert_rows
  insert_rows-each [] acc w = refl
  insert_rows-each (r ∷ rs) acc w =
      rw (into_record-from_record V.text Writable faithful r w.0, normalize-key r)
        (insert_rows-each rs (HashMap.insert acc (from_record r) (normalize V.text r)) w.1)

  -- The record of a row that is not met again, or what the later rows give.
  choose :
      (w : TrustRecord) (b : Bool) (later before : Option TrustRecord)
      → (b ≡ true → later ≡ none)
      → or_before
          (Option.map (normalize V.text) later)
          (if b then some (normalize V.text w) else before)
        ≡ or_before (Option.map (normalize V.text) (if b then some w else later)) before
  choose w true later before gone = simp (gone refl)
  choose w false later before gone = refl

  get-insert_each :
      (m acc : Records) (k : TrustRecordKey)
      → Distinct m
      → IsKeyed m
      → HashMap.get (insert_each (HashMap.values m) acc) k
        ≡ or_before (Option.map (normalize V.text) (HashMap.get m k)) (HashMap.get acc k)
  unfolding HashMap.get HashMap.values
  get-insert_each [] acc k d h = refl
  get-insert_each ((j, w) ∷ m) acc k d h =
      get-insert_each m (HashMap.insert acc (from_record w) (normalize V.text w)) k d.1 h.1
      ∙ ap (or_before (Option.map (normalize V.text) (HashMap.get m k)))
          (get-insert acc (from_record w) k (normalize V.text w))
      ∙ ap
          (λ i.
            or_before (Option.map (normalize V.text) (HashMap.get m k))
              (if key_beq i k then some (normalize V.text w) else HashMap.get acc k))
          (sym h.0)
      ∙ choose w (key_beq j k) (HashMap.get m k) (HashMap.get acc k)
          (λ e. ap (HashMap.get m) (sym ((key_beq_iff j k).0 e)) ∙ d.0)

  module _ (Clean : TrustRecordCsvRow → Type 0) (reads : ReadsBack V Clean)
      (serializes : Serializes V) (F : File) (path path_debug : String) (Answers : F.State → Type 0)
      (modified_at : F.State → ℕ) (text : F.State → String)
      (lawful : Lawful F Answers modified_at text) (s : FileStorage F)
      (ready : IsReady V serializes F Answers modified_at text lawful s) where
    abbrev pub after : FileStorage F
    after = saved V serializes F Answers modified_at text lawful s

    written :
        Answers after.file
        × (text after.file ≡ csv_data V serializes F Answers modified_at text lawful s)
    written =
        let done =
          lawful.write_answers (csv_data V serializes F Answers modified_at text lawful s) s.file
            ready.answers in
        (done.1, done.2)

    abbrev reloaded : Records
    reloaded = insert_each (HashMap.values s.records) []

    parse-written :
        Each Clean (rows_of s.records)
        → EachWritable Writable (HashMap.values s.records)
        → parse_csv V (V.trim (text after.file)) ≡ ok reloaded
    unfolding parse_csv
    parse-written clean w =
        ap (λ t. parse_csv V (V.trim t)) written.1
        ∙ ap (λ rows. insert_rows V rows [])
            (reads (rows_of s.records) (csv_data V serializes F Answers modified_at text lawful s)
              clean (serializes (rows_of s.records)).1)
        ∙ insert_rows-each (HashMap.values s.records) [] w

    -- A storage that starts from a file that was written holds under every key the record that the
    -- storage which wrote it held, with its flags set and, where the context is neither an object nor
    -- an array, with the empty context. The rows written are read back as they were, and the contexts
    -- are writable.
    pub try_new-saved :
        Each Clean (rows_of s.records)
        → EachWritable Writable (HashMap.values s.records)
        → (s' : FileStorage F) × (try_new V F path path_debug after.file ≡ ok s')
          × ((k : TrustRecordKey)
              → HashMap.get s'.records k ≡ Option.map (normalize V.text) (HashMap.get s.records k))
    unfolding try_new HashMap.get
    try_new-saved clean w = (
      record {
        file = after.file;
        records = reloaded;
        last_modified = some (modified_at after.file);
      },
      simp (
        lawful.metadata_answers after.file written.0,
        lawful.read_answers after.file written.0,
        parse-written clean w,
      ),
      λ k.
          get-insert_each s.records [] k ready.distinct ready.keyed
          ∙ or_before-none (Option.map (normalize V.text) (HashMap.get s.records k)),
    )

    -- The sync task does not reload what the storage wrote itself.
    pub sync-saved : sync V F path path_debug after ≡ after
    unfolding sync
    sync-saved =
        simp (lawful.metadata_answers after.file written.0, leb_self (modified_at after.file))
