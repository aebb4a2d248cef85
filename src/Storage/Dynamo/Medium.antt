-- ===== src/Storage/Dynamo/Medium.antt =====
-- What the DynamoDB storage relies on of its table.
use trust_registry_build_pip.Base.{
  String, List, ◌≡◌, ◌↔◌, ◌⊎◌, Option, none, some, ok, err, if◌then◌else◌, ◌==◌, string_eq,
}
use trust_registry_build_pip.Base.HashMap
use trust_registry_build_pip.Domain.Key.{TrustRecordKey, sk, tr_sk_prefix}
use trust_registry_build_pip.Storage.KeyValue.{Prefixed, Held}
use trust_registry_build_pip.Storage.Dynamo.{Item, Table, Serde, build_key, prefix_values, sk_attr}

-- A table that answers acts as a map from sort keys to items. A write under a condition on the sort key
-- is done, or refused with a fixed text while nothing changes.
pub record Lawful {A : Type 0} (X : Serde A) (K : Table A) (table_name : String)
    (Answers : K.State → Type 0) (contents : K.State → String → Option (Item A)) (refusal : String)
    : Type 0 where
  pub get_answers :
      (k : TrustRecordKey) (s : K.State)
      → Answers s
      → K.get_item table_name (build_key X k) s ≡ ok (contents s (sk k))
  pub put_done :
      (t condition : String) (item : Item A) (s : K.State)
      → Answers s
      → HashMap.get item sk_attr ≡ some (X.text_attr t)
      → ((condition ≡ "attribute_not_exists(SK)") × (contents s t ≡ none))
        ⊎ ((condition ≡ "attribute_exists(SK)") × ((old : Item A) × (contents s t ≡ some old)))
      → ((K.put_item table_name item condition s).0 ≡ ok tt)
        × Answers (K.put_item table_name item condition s).1
        × ((u : String)
            → contents (K.put_item table_name item condition s).1 u
              ≡ (if t == u then some item else contents s u))
  pub put_refused :
      (t condition : String) (item : Item A) (s : K.State)
      → Answers s
      → HashMap.get item sk_attr ≡ some (X.text_attr t)
      → ((condition ≡ "attribute_not_exists(SK)") × ((old : Item A) × (contents s t ≡ some old)))
        ⊎ ((condition ≡ "attribute_exists(SK)") × (contents s t ≡ none))
      → K.put_item table_name item condition s ≡ (err refusal, s)
  pub delete_done :
      (k : TrustRecordKey) (old : Item A) (s : K.State)
      → Answers s
      → contents s (sk k) ≡ some old
      → ((K.delete_item table_name (build_key X k) "attribute_exists(SK)" s).0 ≡ ok tt)
        × Answers (K.delete_item table_name (build_key X k) "attribute_exists(SK)" s).1
        × ((u : String)
            → contents (K.delete_item table_name (build_key X k) "attribute_exists(SK)" s).1 u
              ≡ (if sk k == u then none else contents s u))
  pub delete_refused :
      (k : TrustRecordKey) (s : K.State)
      → Answers s
      → contents s (sk k) ≡ none
      → K.delete_item table_name (build_key X k) "attribute_exists(SK)" s ≡ (err refusal, s)
  pub query_answers :
      (s : K.State)
      → Answers s
      → (items : List (Item A)) × (K.query_items table_name
            "PK = :pk AND begins_with(SK, :sk_prefix)"
            (prefix_values X K table_name)
            s
          ≡ ok items)
        × ((item : Item A)
            → Held item items
              ↔ ((t : String) × Prefixed tr_sk_prefix t × (contents s t ≡ some item)))
