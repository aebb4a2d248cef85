-- ===== src/Storage/Dynamo.antt =====
-- `DynamoDbStorage` of trust-registry/src/storage/adapters/ddb_storage.rs over any table. `serde_dynamo`
-- and the calls of the SDK, each with the text of its error, are parameters; a query comes with all
-- its pages.
pub mod Medium
pub mod Laws
use Prim.Native.String
use text.Mathlib.Text.{starts_with}
use trust_registry_build_pip.Base.{
  String, Bool, ◌||◌, List, [], ◌∷◌, Option, none, some, Result, ok, err, map_err, ◌>>=◌,
  if◌then◌else◌, string_eq, format,
}
use trust_registry_build_pip.Base.HashMap
use trust_registry_build_pip.Base.HashMap.{HashMap}
use trust_registry_build_pip.Domain.Record.{TrustRecord}
use trust_registry_build_pip.Domain.Key.{
  TrustRecordQuery, TrustRecordKey, from_record, from_query, sk, tr_sk_prefix,
}
use trust_registry_build_pip.Storage.Repository.{
  RepositoryError, connection_failed, query_failed, serialization_failed, record_not_found,
  record_already_exists, TrustRecordList, Exec, Repository,
}
use trust_registry_build_pip.Storage.Local.{record_text, query_text}
use trust_registry_build_pip.Storage.KeyValue.{Codec}

abbrev pub pk_attr : String
pk_attr = "PK"

abbrev pub sk_attr : String
sk_attr = "SK"

-- `TrustRecordKey::pk`
abbrev pub tr_pk : String
tr_pk = "TR"

-- An item has attributes, of which a text is one kind of value.
abbrev pub Item : Type 0 → Type 0
Item A = HashMap String A

pub record Table (A : Type 0) : Type 1 where
  pub State : Type 0
  pub get_item : String → Item A → State → Result String (Option (Item A))
  pub put_item : String → Item A → String → State → Result String (Unit {0}) × State
  pub delete_item : String → Item A → String → State → Result String (Unit {0}) × State
  pub query_items : String → String → Item A → State → Result String (List (Item A))

-- `AttributeValue::S`, and `serde_dynamo`
pub record Serde (A : Type 0) : Type 0 where
  pub text_attr : String → A
  pub to_item : TrustRecord → Result String (Item A)
  pub from_item : Item A → Result String TrustRecord

-- `str::contains`
unfoldable pub contains_text : String → String → Bool
contains_text String.[] t = starts_with String.[] t
contains_text (String.◌∷◌ c s) t =
    let rest = contains_text s t in starts_with (String.◌∷◌ c s) t || rest

module _ {A : Type 0} (X : Serde A) where
  -- `build_key` and `build_key_from_record`
  unfoldable pub build_key : TrustRecordKey → Item A
  build_key k =
      HashMap.insert (HashMap.insert [] pk_attr (X.text_attr tr_pk)) sk_attr (X.text_attr (sk k))

  -- `item.extend(key)`
  unfoldable pub extended : TrustRecord → Item A → Item A
  extended r item =
      HashMap.insert (HashMap.insert item pk_attr (X.text_attr tr_pk)) sk_attr
        (X.text_attr (sk (from_record r)))

  -- How a record is written and read: the attributes of the key are added to its own.
  abbrev pub codec : Codec (Item A)
  codec = record {
    encode = λ r. X.to_item r >>= λ item. ok (extended r item);
    decode = X.from_item;
  }

  module _ (K : Table A) (table_name : String) where
    abbrev pub serialization_error : String → RepositoryError
    serialization_error e = serialization_failed e

    abbrev pub fetch_error : String → RepositoryError
    fetch_error e = connection_failed (format ("Failed to fetch item from DynamoDB: " ∷ e ∷ []))

    abbrev pub found : Option (Item A) → Result RepositoryError (Option TrustRecord)
    found none = ok none
    found (some item) = map_err serialization_error (X.from_item item) >>= λ r. ok (some r)

    unfoldable pub find_by_query : TrustRecordQuery → Exec K.State (Option TrustRecord)
    find_by_query q s =
        (map_err fetch_error (K.get_item table_name (build_key (from_query q)) s) >>= found, s)

    -- The error of a write, told by its text: the condition failed, or another cause.
    unfoldable pub write_error : RepositoryError → String → String → RepositoryError
    write_error refused what e =
        if contains_text e "ConditionalCheckFailed"
        then refused
        else query_failed (format (what ∷ e ∷ []))

    abbrev pub finish :
        RepositoryError
        → String
        → Result String (Unit {0}) × K.State
        → Result RepositoryError (Unit {0}) × K.State
    finish refused what (outcome, s) = (map_err (write_error refused what) outcome, s)

    abbrev pub put_record :
        RepositoryError
        → String
        → String
        → TrustRecord
        → Result String (Item A)
        → Exec K.State (Unit {0})
    put_record refused what condition r (err e) s = (err (serialization_error e), s)
    put_record refused what condition r (ok item) s =
        finish refused what (K.put_item table_name item condition s)

    unfoldable pub create : TrustRecord → Exec K.State (Unit {0})
    create r s =
        put_record (record_already_exists (record_text "Record already exists: " r))
          "Failed to create record: " "attribute_not_exists(SK)" r (codec.encode r) s

    unfoldable pub update : TrustRecord → Exec K.State (Unit {0})
    update r s =
        put_record (record_not_found (record_text "Record not found: " r))
          "Failed to update record: " "attribute_exists(SK)" r (codec.encode r) s

    unfoldable pub delete : TrustRecordQuery → Exec K.State (Unit {0})
    delete q s =
        finish (record_not_found (query_text "Record not found: " q)) "Failed to delete record: "
          (K.delete_item table_name (build_key (from_query q)) "attribute_exists(SK)" s)

    -- The loop over the items, which an item that does not convert ends
    unfoldable pub collect : List (Item A) → Result RepositoryError (List TrustRecord)
    collect [] = ok []
    collect (item ∷ items) =
        map_err serialization_error (X.from_item item) >>= λ r. collect items >>= λ rs. ok (r ∷ rs)

    abbrev pub prefix_values : Item A
    prefix_values =
        HashMap.insert (HashMap.insert [] ":pk" (X.text_attr tr_pk)) ":sk_prefix"
          (X.text_attr tr_sk_prefix)

    unfoldable pub list : Exec K.State TrustRecordList
    unfolding collect
    list s = (
      map_err (λ e. query_failed (format ("Failed to query table: " ∷ e ∷ [])))
            (K.query_items table_name "PK = :pk AND begins_with(SK, :sk_prefix)" prefix_values s)
          >>= collect
          >>= λ rs. ok (record { records = rs }),
      s,
    )

    abbrev pub present : TrustRecordQuery → Option (Item A) → Result RepositoryError TrustRecord
    present q none = err (record_not_found (query_text "Record not found: " q))
    present q (some item) = map_err serialization_error (X.from_item item)

    unfoldable pub read : TrustRecordQuery → Exec K.State TrustRecord
    read q s =
        (map_err fetch_error (K.get_item table_name (build_key (from_query q)) s) >>= present q, s)

    -- `impl TrustRecordAdminRepository for DynamoDbStorage`
    abbrev pub repository : Repository
    repository = record {
      Store = K.State;
      find_by_query = find_by_query;
      create = create;
      update = update;
      delete = delete;
      list = list;
      read = read;
    }
