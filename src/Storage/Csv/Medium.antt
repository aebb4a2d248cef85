-- ===== src/Storage/Csv/Medium.antt =====
-- What the CSV storage relies on of its file and of the CSV writer.
use trust_registry_build_pip.Base.{ℕ, String, ◌≡◌, List, ok}
use trust_registry_build_pip.Domain.Key.{key_eq}
use trust_registry_build_pip.Storage.Csv.Row.{TrustRecordCsvRow}
use trust_registry_build_pip.Storage.Csv.File.{File, Csv}

-- A file that answers has a time of its last change and a text, and takes the text that is written.
pub record Lawful (F : File) (Answers : F.State → Type 0) (modified_at : F.State → ℕ)
    (text : F.State → String) : Type 0 where
  pub metadata_answers : (f : F.State) → Answers f → F.metadata f ≡ ok (ok (modified_at f))
  pub read_answers : (f : F.State) → Answers f → F.read_to_string f ≡ ok (text f)
  pub write_answers :
      (t : String) (f : F.State)
      → Answers f
      → ((F.write t f).0 ≡ ok tt) × Answers (F.write t f).1 × (text (F.write t f).1 ≡ t)

-- The CSV writer takes any rows.
abbrev pub Serializes : Csv → Type 0
Serializes V = (rows : List TrustRecordCsvRow) → (t : String) × (V.serialize rows ≡ ok t)
