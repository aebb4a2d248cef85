-- ===== src/Storage/Csv/Row.antt =====
-- `TrustRecordCsvRow` of trust-registry/src/storage/adapters/csv_file_storage.rs. Base64 and the text of
-- JSON are parameters.
use trust_registry_build_pip.Base.{
  String, Bool, true, false, Option, none, some, Result, ok, map_err, ◌>>=◌, ◌≡◌, refl, format, [],
  ◌∷◌,
}
use trust_registry_build_pip.Domain.Json.{Value, Context, array, object, empty}
use trust_registry_build_pip.Domain.RecordType
use trust_registry_build_pip.Domain.RecordType.{
  RecordType, authorization, recognition, from_str-to_string,
}
use trust_registry_build_pip.Domain.Record.{TrustRecord, is_recognized, is_authorized}
use trust_registry_build_pip.Domain.Builder
use trust_registry_build_pip.Domain.Builder.{TrustRecordBuilder, build}

pub record TrustRecordCsvRow : Type 0 where
  pub entity_id : String
  pub authority_id : String
  pub action : String
  pub resource : String
  pub recognized : Bool
  pub authorized : Bool
  pub context : Option String
  pub record_type : String

-- `base64`, whose decoding is read as UTF-8, and `serde_json`
pub record TextCodec : Type 0 where
  pub encode : String → String
  pub decode : String → Option String
  pub to_text : Value → String
  pub from_text : String → Option Value

-- What was encoded is decoded, and the text of a writable JSON value, such as one that is not nested
-- deeper than the reader allows, is read back.
pub record Faithful (T : TextCodec) (Writable : Value → Type 0) : Type 0 where
  pub decode-encode : (s : String) → T.decode (T.encode s) ≡ some s
  pub from_text-to_text : (v : Value) → Writable v → T.from_text (T.to_text v) ≡ some v

-- `is_object() || is_array()`
abbrev pub is_structured : Value → Bool
is_structured (object fields) = true
is_structured (array items) = true
is_structured _ = false

module _ (T : TextCodec) where
  abbrev pub text_of : Option String → Option Value
  text_of none = none
  text_of (some s) = T.from_text s

  unfoldable pub parse_context : Option String → Option Value
  parse_context none = none
  parse_context (some c) = text_of (T.decode c)

  -- A scalar context is not written.
  abbrev pub encoded : Value → Bool → Option String
  encoded context true = some (T.encode (T.to_text context))
  encoded context false = none

  unfoldable pub from_record : TrustRecord → TrustRecordCsvRow
  unfolding RecordType.to_string
  from_record r = record {
    entity_id = r.entity_id;
    authority_id = r.authority_id;
    action = r.action;
    resource = r.resource;
    recognized = is_recognized r;
    authorized = is_authorized r;
    context = encoded r.context (is_structured r.context);
    record_type = RecordType.to_string r.record_type;
  }

  abbrev pub with_context : TrustRecordBuilder → Option Value → TrustRecordBuilder
  with_context builder none = builder
  with_context builder (some c) = Builder.context builder c

  -- The builder before the context is set
  abbrev pub builder_of : TrustRecordCsvRow → RecordType → TrustRecordBuilder
  builder_of row record_type =
      Builder.record_type
        (Builder.authorized
          (Builder.recognized
            (Builder.resource
              (Builder.action
                (Builder.authority_id (Builder.entity_id Builder.new row.entity_id)
                  row.authority_id)
                row.action)
              row.resource)
            row.recognized)
          row.authorized)
        record_type

  abbrev pub parsed_type : TrustRecordCsvRow → Result String RecordType
  parsed_type row = map_err RecordType.error_to_string (RecordType.from_str row.record_type)

  unfoldable pub into_record : TrustRecordCsvRow → Result String TrustRecord
  unfolding parse_context
  into_record row = parsed_type row >>= λ record_type.
      map_err (λ e. format ("invalid trust record: " ∷ RecordType.error_to_string e ∷ []))
        (build (with_context (builder_of row record_type) (parse_context row.context)))

  -- What a record is after it was written and read: its flags are set, and a scalar context is empty.
  abbrev pub kept_context : Value → Bool → Context
  kept_context context true = context
  kept_context context false = empty

  abbrev pub normalize : TrustRecord → TrustRecord
  normalize r = record r {
    recognized = some (is_recognized r);
    authorized = some (is_authorized r);
    context = kept_context r.context (is_structured r.context);
  }

  module _ (Writable : Value → Type 0) (faithful : Faithful T Writable) where
    read_type : (t : RecordType) → RecordType.from_str (RecordType.to_string t) ≡ ok t
    unfolding RecordType.from_str RecordType.to_string
    read_type authorization = refl
    read_type recognition = refl

    built :
        (row : TrustRecordCsvRow) (t : RecordType) (c : Value) (structured : Bool)
        → Writable c
        → build (with_context (builder_of row t) (parse_context (encoded c structured)))
          ≡ ok (record {
            entity_id = row.entity_id;
            authority_id = row.authority_id;
            action = row.action;
            resource = row.resource;
            recognized = some row.recognized;
            authorized = some row.authorized;
            context = kept_context c structured;
            record_type = t;
          })
    unfolding build Builder.new Builder.entity_id Builder.authority_id Builder.action
        Builder.resource Builder.recognized Builder.authorized Builder.record_type Builder.context
        parse_context
    built row t c true w =
        simp (faithful.decode-encode (T.to_text c), faithful.from_text-to_text c w)
    built row t c false w = refl

    -- The row of a record whose context is writable is read as the record with its flags set and, where the context is neither
    -- an object nor an array, with the empty context.
    pub into_record-from_record :
        (r : TrustRecord) → Writable r.context → into_record (from_record r) ≡ ok (normalize r)
    unfolding into_record from_record
    into_record-from_record r w = simp (
      read_type r.record_type,
      built (from_record r) r.record_type r.context (is_structured r.context) w,
    )
