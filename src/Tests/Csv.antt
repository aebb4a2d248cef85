-- ===== src/Tests/Csv.antt =====
-- The CSV storage over a file in memory whose text counts the rows of one record.
use trust_registry_build_pip.Base.{
  ℕ, String, ◌≡◌, refl, ap, ◌∙◌, arith, suc, true, false, none, some, Result, ok, err, List, [],
  ◌∷◌, map, format,
}
use mathlib.Core.Option
use trust_registry_build_pip.Base.HashMap
use trust_registry_build_pip.Base.HashMap.{HashMap}
use trust_registry_build_pip.Domain.Json.{Value, object, end}
use trust_registry_build_pip.Domain.RecordType
use trust_registry_build_pip.Domain.Key.{TrustRecordKey, key_eq, from_record}
use trust_registry_build_pip.Storage.Repository.{Contract, by_key, query_failed}
use trust_registry_build_pip.Storage.Csv.Row
use trust_registry_build_pip.Storage.Csv.Row.{TrustRecordCsvRow, TextCodec, Faithful, normalize}
use trust_registry_build_pip.Storage.Csv.File
use trust_registry_build_pip.Storage.Csv.File.{Csv, FileStorage, try_new, create}
use trust_registry_build_pip.Storage.Csv.Medium.{Lawful, Serializes}
use trust_registry_build_pip.Storage.Csv.Laws.{IsReady, view, repository-Contract_file}
use trust_registry_build_pip.Storage.Csv.Reload.{
  Each, EachWritable, ReadsBack, after, try_new-saved,
}
use trust_registry_build_pip.Storage.Csv.Unwritten.{create-unwritten, inserted}
use trust_registry_build_pip.Tests.Fixtures.{trust_record}

-- The one JSON text is that of the empty object.
abbrev codec : TextCodec
codec = record {
  encode = λ s. s;
  decode = λ s. some s;
  to_text = λ v. "{}";
  from_text = λ s. some (object end);
}

abbrev IsEmpty : Value → Type 0
IsEmpty v = object end ≡ v

codec-Faithful : Faithful codec IsEmpty
codec-Faithful = record { decode-encode = λ s. refl; from_text-to_text = λ v w. ap some w }

abbrev row : TrustRecordCsvRow
row = record {
  entity_id = "did:e";
  authority_id = "did:a";
  action = "issue";
  resource = "badge";
  recognized = true;
  authorized = false;
  context = some "{}";
  record_type = "authorization";
}

abbrev tally : List TrustRecordCsvRow → String
tally [] = String.[]
tally (r ∷ rows) = String.◌∷◌ "x" (tally rows)

abbrev rows_of_text : String → List (Result String TrustRecordCsvRow)
rows_of_text String.[] = []
rows_of_text (String.◌∷◌ c s) = ok row ∷ rows_of_text s

abbrev csv : Csv
csv = record {
  text = codec;
  trim = λ s. s;
  deserialize = rows_of_text;
  serialize = λ rows. ok (tally rows);
}

abbrev IsRow : TrustRecordCsvRow → Type 0
IsRow r = row ≡ r

tally-reads :
    (rows : List TrustRecordCsvRow) → Each IsRow rows → rows_of_text (tally rows) ≡ map ok rows
tally-reads [] each = refl
tally-reads (r ∷ rows) each = cc (each.0, tally-reads rows each.1)

reads : ReadsBack csv IsRow
reads rows t each e = ap rows_of_text (ground (arith, e)) ∙ tally-reads rows each

serializes : Serializes csv
serializes rows = (tally rows, refl)

-- A file is its text and the number of its changes.
abbrev file : File.File
file = record {
  State = String × ℕ;
  metadata = λ f. ok (ok f.1);
  read_to_string = λ f. ok f.0;
  write = λ t f. (ok tt, (t, suc f.1));
}

file-Lawful : Lawful file (λ f. Unit) (λ f. f.1) (λ f. f.0)
file-Lawful = record {
  metadata_answers = λ f h. refl;
  read_answers = λ f h. refl;
  write_answers = λ t f h. (refl, tt, refl);
}

repository-Contract_file_example :
    Contract
      (File.repository csv file)
      by_key
      (IsReady csv serializes file (λ f. Unit) (λ f. f.1) (λ f. f.0) file-Lawful)
      (view csv serializes file (λ f. Unit) (λ f. f.1) (λ f. f.0) file-Lawful)
repository-Contract_file_example =
    repository-Contract_file csv serializes file (λ f. Unit) (λ f. f.1) (λ f. f.0) file-Lawful

abbrev key : TrustRecordKey
key = record { authority_id = "did:a"; action = "issue"; resource = "badge"; entity_id = "did:e" }

abbrev one_storage : FileStorage file
one_storage = record { file = ("", 0); records = (key, trust_record) ∷ []; last_modified = some 0 }

one-IsReady : IsReady csv serializes file (λ f. Unit) (λ f. f.1) (λ f. f.0) file-Lawful one_storage
unfolding from_record HashMap.get
one-IsReady = record { answers = tt; distinct = (refl, tt); keyed = (refl, tt) }

one_row : Each IsRow (map (Row.from_record codec) (HashMap.values one_storage.records))
unfolding Row.from_record HashMap.values RecordType.to_string
one_row = (refl, tt)

one_writable : EachWritable IsEmpty (HashMap.values one_storage.records)
unfolding HashMap.values
one_writable = (refl, tt)

try_new-saved_example :
    (s' : FileStorage file) × (try_new csv file "records.csv" "records.csv"
        (after csv IsEmpty codec-Faithful IsRow reads serializes file "records.csv" "records.csv"
          (λ f. Unit)
          (λ f. f.1)
          (λ f. f.0)
          file-Lawful
          one_storage
          one-IsReady).file
      ≡ ok s')
    × ((k : TrustRecordKey)
        → HashMap.get s'.records k
          ≡ Option.map (normalize codec) (HashMap.get one_storage.records k))
try_new-saved_example =
    try_new-saved csv IsEmpty codec-Faithful IsRow reads serializes file "records.csv" "records.csv"
      (λ f. Unit) (λ f. f.1) (λ f. f.0) file-Lawful one_storage one-IsReady one_row one_writable

-- A file that cannot be written.
abbrev locked_file : File.File
locked_file = record {
  State = ℕ;
  metadata = λ f. ok (ok f);
  read_to_string = λ f. ok "";
  write = λ t f. (err "denied", f);
}

abbrev locked_storage : FileStorage locked_file
locked_storage = record { file = 0; records = []; last_modified = some 0 }

nothing : HashMap.get locked_storage.records (from_record trust_record) ≡ none
unfolding HashMap.get
nothing = refl

create-unwritten_example :
    ((create csv locked_file trust_record locked_storage).0
      ≡ err (query_failed (format ("Failed to write CSV file: " ∷ "denied" ∷ []))))
    × (HashMap.get
          (create csv locked_file trust_record locked_storage).1.records
          (from_record trust_record)
        ≡ some trust_record)
create-unwritten_example =
    create-unwritten csv locked_file locked_storage trust_record
      (tally (
        map (Row.from_record codec)
          (HashMap.values (inserted csv locked_file locked_storage trust_record).records)))
      "denied" nothing refl refl
