-- ===== src/Storage/Dynamo/Laws.antt =====
-- `DynamoDbStorage` meets the contract of a repository over a table that answers.
use trust_registry_build_pip.Base.{
  String, true, List, [], ◌∷◌, ◌≡◌, ◌↔◌, refl, Option, none, some, Result, ok, if◌then◌else◌, ◌==◌,
  string_eq, inl, inr,
}
use trust_registry_build_pip.Base.HashMap
use trust_registry_build_pip.Base.HashMap.{get-insert}
use trust_registry_build_pip.Domain.Record.{TrustRecord}
use trust_registry_build_pip.Domain.Key.{
  TrustRecordQuery, TrustRecordKey, from_record, from_query, sk,
}
use trust_registry_build_pip.Storage.Repository.{
  RepositoryError, TrustRecordList, Listed, Contract, View, put, by_sort_key, FailsWith,
  already_exists, not_found,
}
use trust_registry_build_pip.Storage.KeyValue.{Held, IsFiled, view_of, readables}
use trust_registry_build_pip.Storage.KeyValue.Filed.{
  view_some, view_none, lookup-cases, scan-view, store-IsFiled, view-store, take_out-IsFiled,
  view-take_out,
}
use trust_registry_build_pip.Storage.Dynamo.{
  Item, Table, Serde, sk_attr, contains_text, build_key, extended, codec, repository, find_by_query,
  create, update, delete, list, read, collect, write_error,
}
use trust_registry_build_pip.Storage.Dynamo.Medium.{Lawful}

-- A record converts to an item, from which it is read back with the attributes of the key beside it.
abbrev pub ReadsBack : {A : Type 0} → Serde A → Type 0
ReadsBack {A} X =
    (r : TrustRecord)
    → (item : Item A) × (X.to_item r ≡ ok item) × (X.from_item (extended X r item) ≡ ok r)

module _ {A : Type 0} (X : Serde A) (reads : ReadsBack X) (K : Table A) (table_name : String)
    (Answers : K.State → Type 0) (contents : K.State → String → Option (Item A)) (refusal : String)
    (lawful : Lawful X K table_name Answers contents refusal)
    (named : contains_text refusal "ConditionalCheckFailed" ≡ true) where
  pub record IsReady (s : K.State) : Type 0 where
    pub answers : Answers s
    pub filed : IsFiled (codec X) (contents s)

  abbrev pub view : K.State → View
  view s = view_of (codec X) (contents s)

  refused_error :
      (e : RepositoryError) (what : String) → write_error X K table_name e what refusal ≡ e
  unfolding write_error
  refused_error e what = simp named

  -- The item of a record, with its sort key
  abbrev item_of : TrustRecord → Item A
  item_of r = extended X r (reads r).0

  item_of-sk :
      (r : TrustRecord) → HashMap.get (item_of r) sk_attr ≡ some (X.text_attr (sk (from_record r)))
  unfolding extended
  item_of-sk r = get-insert _ sk_attr sk_attr (X.text_attr (sk (from_record r)))

  collect-readables :
      (items : List (Item A))
      → ((item : Item A) → Held item items → (r : TrustRecord) × (X.from_item item ≡ ok r))
      → collect X K table_name items ≡ ok (readables (codec X) items)
  unfolding collect readables
  collect-readables [] each = refl
  collect-readables (item ∷ items) each =
      let first = each item (inl refl) in
      simp (first.1, collect-readables items (λ i held. each i (inr held)))

  module _ (s : K.State) (h : IsReady s) where
    find_ready :
        (q : TrustRecordQuery) → find_by_query X K table_name q s ≡ (ok (view s (from_query q)), s)
    unfolding find_by_query view_of
    find_ready q =
        let got = lawful.get_answers (from_query q) s h.answers in
        elim (lookup-cases (codec X) (contents s) h.filed (from_query q)) [
          | inl gone ↦ simp (got, gone.0)
          | inr there ↦ simp (got, there.2, there.3)
        ]

    abbrev written : String → TrustRecord → Result String (Unit {0}) × K.State
    written condition r = K.put_item table_name (item_of r) condition s

    -- What a put that was done leaves.
    put_done-IsReady :
        (r : TrustRecord) (condition : String)
        → Answers (written condition r).1
        → ((u : String)
            → contents (written condition r).1 u
              ≡ (if sk (from_record r) == u then some (item_of r) else contents s u))
        → IsReady (written condition r).1
          × ((j : TrustRecordKey)
              → view (written condition r).1 j
                ≡ put by_sort_key (view s) (from_record r) (some r) j)
    put_done-IsReady r condition answers w =
        let c' = contents (written condition r).1 in
        (
          record {
            answers = answers;
            filed = store-IsFiled (codec X) (contents s) h.filed r (item_of r) (reads r).2 c' w;
          },
          view-store (codec X) (contents s) h.filed r (item_of r) (reads r).2 c' w,
        )

    create_new :
        (r : TrustRecord)
        → view s (from_record r) ≡ none
        → ((create X K table_name r s).0 ≡ ok tt)
          × IsReady (create X K table_name r s).1
          × ((j : TrustRecordKey)
              → view (create X K table_name r s).1 j
                ≡ put by_sort_key (view s) (from_record r) (some r) j)
    unfolding create
    create_new r e =
        let free = view_none (codec X) (contents s) h.filed (from_record r) e in
        let condition : String = "attribute_not_exists(SK)" in
        let done =
          lawful.put_done (sk (from_record r)) condition (item_of r) s h.answers (item_of-sk r)
            (inl (refl, free)) in
        let after = put_done-IsReady r condition done.1 done.2 in
        simp (reads r).1 (simp done.0 refl, after.0, after.1)

    create_old :
        (r old : TrustRecord)
        → view s (from_record r) ≡ some old
        → FailsWith already_exists (create X K table_name r s).0
          × ((create X K table_name r s).1 ≡ s)
    unfolding create
    create_old r old e =
        let taken = view_some (codec X) (contents s) h.filed (from_record r) old e in
        let refused =
          lawful.put_refused (sk (from_record r)) "attribute_not_exists(SK)" (item_of r) s h.answers
            (item_of-sk r) (inl (refl, (taken.0, taken.1))) in
        simp ((reads r).1, refused, refused_error) (refl, refl)

    update_old :
        (r old : TrustRecord)
        → view s (from_record r) ≡ some old
        → ((update X K table_name r s).0 ≡ ok tt)
          × IsReady (update X K table_name r s).1
          × ((j : TrustRecordKey)
              → view (update X K table_name r s).1 j
                ≡ put by_sort_key (view s) (from_record r) (some r) j)
    unfolding update
    update_old r old e =
        let taken = view_some (codec X) (contents s) h.filed (from_record r) old e in
        let condition : String = "attribute_exists(SK)" in
        let done =
          lawful.put_done (sk (from_record r)) condition (item_of r) s h.answers (item_of-sk r)
            (inr (refl, (taken.0, taken.1))) in
        let after = put_done-IsReady r condition done.1 done.2 in
        simp (reads r).1 (simp done.0 refl, after.0, after.1)

    update_new :
        (r : TrustRecord)
        → view s (from_record r) ≡ none
        → FailsWith not_found (update X K table_name r s).0 × ((update X K table_name r s).1 ≡ s)
    unfolding update
    update_new r e =
        let free = view_none (codec X) (contents s) h.filed (from_record r) e in
        let refused =
          lawful.put_refused (sk (from_record r)) "attribute_exists(SK)" (item_of r) s h.answers
            (item_of-sk r) (inr (refl, free)) in
        simp ((reads r).1, refused, refused_error) (refl, refl)

    delete_old :
        (q : TrustRecordQuery) (old : TrustRecord)
        → view s (from_query q) ≡ some old
        → ((delete X K table_name q s).0 ≡ ok tt)
          × IsReady (delete X K table_name q s).1
          × ((j : TrustRecordKey)
              → view (delete X K table_name q s).1 j
                ≡ put by_sort_key (view s) (from_query q) none j)
    unfolding delete
    delete_old q old e =
        let k = from_query q in
        let taken = view_some (codec X) (contents s) h.filed k old e in
        let done = lawful.delete_done k taken.0 s h.answers taken.1 in
        let c' = contents (K.delete_item table_name (build_key X k) "attribute_exists(SK)" s).1 in
        (
          simp done.0 refl,
          record {
            answers = done.1;
            filed = take_out-IsFiled (codec X) (contents s) h.filed k c' done.2;
          },
          view-take_out (codec X) (contents s) h.filed k c' done.2,
        )

    delete_new :
        (q : TrustRecordQuery)
        → view s (from_query q) ≡ none
        → FailsWith not_found (delete X K table_name q s).0
          × IsReady (delete X K table_name q s).1
          × ((j : TrustRecordKey) → view (delete X K table_name q s).1 j ≡ view s j)
    unfolding delete
    delete_new q e =
        let free = view_none (codec X) (contents s) h.filed (from_query q) e in
        let refused = lawful.delete_refused (from_query q) s h.answers free in
        simp (refused, refused_error) (refl, h, λ j. refl)

    read_old :
        (q : TrustRecordQuery) (r : TrustRecord)
        → view s (from_query q) ≡ some r
        → read X K table_name q s ≡ (ok r, s)
    unfolding read
    read_old q r e =
        let there = view_some (codec X) (contents s) h.filed (from_query q) r e in
        simp (lawful.get_answers (from_query q) s h.answers, there.1, there.2)

    read_new :
        (q : TrustRecordQuery)
        → view s (from_query q) ≡ none
        → FailsWith not_found (read X K table_name q s).0 × ((read X K table_name q s).1 ≡ s)
    unfolding read
    read_new q e =
        let free = view_none (codec X) (contents s) h.filed (from_query q) e in
        simp (lawful.get_answers (from_query q) s h.answers, free) (refl, refl)

    list_ready :
        (l : TrustRecordList) × (list X K table_name s ≡ (ok l, s))
        × ((r : TrustRecord) → Listed r l.records ↔ (view s (from_record r) ≡ some r))
    unfolding list
    list_ready =
        let found = lawful.query_answers s h.answers in
        let converts : (item : Item A)
            → Held item found.0
            → (r : TrustRecord) × (X.from_item item ≡ ok r) =
          λ item held.
            let there = (found.2 item).0 held in
            let filed = h.filed there.0 item there.1 there.2 in (filed.0, filed.1) in
        (
          record { records = readables (codec X) found.0 },
          simp (found.1, collect-readables found.0 converts),
          scan-view (codec X) (contents s) h.filed found.0 found.2,
        )

  -- The DynamoDB storage is a repository that tells keys apart by their sort keys: over a table that
  -- answers, and where what stands under a key of the registry is a record with that sort key, every
  -- method does what the contract says and keeps it so. A record is read back from its item, and the
  -- text of the error of a refused condition holds `ConditionalCheckFailed`.
  pub repository-Contract_table : Contract (repository X K table_name) by_sort_key IsReady view
  repository-Contract_table = record {
    find_ready = λ q s h. find_ready s h q;
    create_new = λ r s h. create_new s h r;
    create_old = λ r old s h. create_old s h r old;
    update_old = λ r old s h. update_old s h r old;
    update_new = λ r s h. update_new s h r;
    delete_old = λ q old s h. delete_old s h q old;
    delete_new = λ q s h. delete_new s h q;
    read_old = λ q r s h. read_old s h q r;
    read_new = λ q s h. read_new s h q;
    list_ready = list_ready;
  }
