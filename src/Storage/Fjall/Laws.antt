-- ===== src/Storage/Fjall/Laws.antt =====
-- `FjallStorage` meets the contract of a repository over a keyspace that answers.
use trust_registry_build_pip.Storage.Fjall.Stores
use trust_registry_build_pip.Storage.Fjall.Stores.{IsReady, view}
use trust_registry_build_pip.Base.{
  String, List, [], ◌∷◌, map, ◌≡◌, ◌↔◌, refl, ap, ◌∙◌, Option, none, some, Result, ok, err,
  string_eq, Result-cases, inl, inr,
}
use trust_registry_build_pip.Domain.Record.{TrustRecord}
use trust_registry_build_pip.Domain.Key.{
  TrustRecordQuery, TrustRecordKey, from_record, from_query, sk, tr_sk_prefix,
}
use trust_registry_build_pip.Storage.Repository.{
  record_not_found, TrustRecordList, Listed, Contract, put, by_sort_key, FailsWith, not_found,
}
use trust_registry_build_pip.Storage.KeyValue.{
  Codec, Faithful, Prefixed, Held, view_of, readables, Held-map,
}
use trust_registry_build_pip.Storage.KeyValue.Filed.{
  view_some, view_none, scan-view, take_out-IsFiled, view-take_out, lookup-cases,
}
use trust_registry_build_pip.Storage.Fjall.{
  Keyspace, repository, find_by_query, delete, list, read, collect,
}
use trust_registry_build_pip.Storage.Fjall.Medium.{Lawful}

module _ {V : Type 0} (C : Codec V) (faithful : Faithful C) (K : Keyspace V)
    (Answers : K.State → Type 0) (contents : K.State → String → Option V)
    (lawful : Lawful K Answers contents) where
  collect-readables :
      (entries : List (String × V))
      → collect C K (map ok entries) ≡ ok (readables C (map (λ x. x.1) entries))
  unfolding collect readables
  collect-readables [] = refl
  collect-readables ((t, v) ∷ entries) = elim (Result-cases (C.decode v)) [
    | inl bad ↦ simp (bad.1, collect-readables entries)
    | inr good ↦ simp (good.1, collect-readables entries)
  ]

  values-law :
      (entries : List (String × V)) (c : String → Option V)
      → ((t : String) (v : V) → Held (t, v) entries ↔ (Prefixed tr_sk_prefix t × (c t ≡ some v)))
      → (v : V)
      → Held v (map (λ x. x.1) entries) ↔ ((t : String) × Prefixed tr_sk_prefix t × (c t ≡ some v))
  values-law entries c law v =
      let held = Held-map {A = String × V} (λ x. x.1) v entries in
      (
        λ l.
            let found = held.0 l in
            let there = (law found.0.0 found.0.1).0 found.1 in
            (found.0.0, there.0, there.1 ∙ ap some found.2),
        λ p. held.1 ((p.0, v), (law p.0 v).1 (p.1, p.2), refl),
      )

  module _ (s : K.State) (h : IsReady C faithful K Answers contents lawful s) where
    find_ready :
        (q : TrustRecordQuery)
        → find_by_query C K q s
          ≡ (ok (view C faithful K Answers contents lawful s (from_query q)), s)
    unfolding find_by_query view_of
    find_ready q =
        let got = lawful.get_answers (sk (from_query q)) s h.answers in
        elim (lookup-cases C (contents s) h.filed (from_query q)) [
          | inl gone ↦ simp (got, gone.0)
          | inr there ↦ simp (got, there.2, there.3)
        ]

    abbrev left : TrustRecordQuery → Result String (Unit {0}) × K.State
    left q = K.remove (sk (from_query q)) s

    delete_old-eq :
        (q : TrustRecordQuery) (old : TrustRecord)
        → view C faithful K Answers contents lawful s (from_query q) ≡ some old
        → delete C K q s ≡ (ok tt, (left q).1)
    unfolding delete
    delete_old-eq q old e =
        let key = sk (from_query q) in
        simp (
          lawful.contains_answers key s h.answers,
          (view_some C (contents s) h.filed (from_query q) old e).1,
          (lawful.remove_answers key s h.answers).0,
        )

    delete_old :
        (q : TrustRecordQuery) (old : TrustRecord)
        → view C faithful K Answers contents lawful s (from_query q) ≡ some old
        → ((delete C K q s).0 ≡ ok tt)
          × IsReady C faithful K Answers contents lawful (delete C K q s).1
          × ((j : TrustRecordKey)
              → view C faithful K Answers contents lawful (delete C K q s).1 j
                ≡ put by_sort_key
                    (view C faithful K Answers contents lawful s)
                    (from_query q)
                    none
                    j)
    delete_old q old e =
        let k = from_query q in
        let law = lawful.remove_answers (sk k) s h.answers in
        rw (delete_old-eq q old e) (
          refl,
          record {
            answers = law.1;
            filed = take_out-IsFiled C (contents s) h.filed k (contents (left q).1) law.2;
          },
          view-take_out C (contents s) h.filed k (contents (left q).1) law.2,
        )

    delete_new-eq :
        (q : TrustRecordQuery)
        → view C faithful K Answers contents lawful s (from_query q) ≡ none
        → delete C K q s ≡ (err (record_not_found (sk (from_query q))), s)
    unfolding delete
    delete_new-eq q e = simp (
      lawful.contains_answers (sk (from_query q)) s h.answers,
      view_none C (contents s) h.filed (from_query q) e,
    )

    delete_new :
        (q : TrustRecordQuery)
        → view C faithful K Answers contents lawful s (from_query q) ≡ none
        → FailsWith not_found (delete C K q s).0
          × IsReady C faithful K Answers contents lawful (delete C K q s).1
          × ((j : TrustRecordKey)
              → view C faithful K Answers contents lawful (delete C K q s).1 j
                ≡ view C faithful K Answers contents lawful s j)
    delete_new q e = rw (delete_new-eq q e) (refl, h, λ j. refl)

    read_old :
        (q : TrustRecordQuery) (r : TrustRecord)
        → view C faithful K Answers contents lawful s (from_query q) ≡ some r
        → read C K q s ≡ (ok r, s)
    unfolding read
    read_old q r e =
        let there = view_some C (contents s) h.filed (from_query q) r e in
        simp (lawful.get_answers (sk (from_query q)) s h.answers, there.1, there.2)

    read_new :
        (q : TrustRecordQuery)
        → view C faithful K Answers contents lawful s (from_query q) ≡ none
        → FailsWith not_found (read C K q s).0 × ((read C K q s).1 ≡ s)
    unfolding read
    read_new q e =
        simp
          (
            lawful.get_answers (sk (from_query q)) s h.answers,
            view_none C (contents s) h.filed (from_query q) e,
          )
          (refl, refl)

    list_ready :
        (l : TrustRecordList) × (list C K s ≡ (ok l, s))
        × ((r : TrustRecord)
            → Listed r l.records
              ↔ (view C faithful K Answers contents lawful s (from_record r) ≡ some r))
    unfolding list
    list_ready =
        let scan = lawful.prefix_answers tr_sk_prefix s h.answers in
        let found = readables C (map (λ x. x.1) scan.0) in
        (
          record { records = found },
          simp (scan.1, collect-readables scan.0),
          scan-view C (contents s) h.filed (map (λ x. x.1) scan.0)
              (values-law scan.0 (contents s) scan.2),
        )

  -- The Fjall storage is a repository that tells keys apart by their sort keys: over a keyspace that
  -- answers and where what stands under a key of the registry is a record with that sort key, every
  -- method does what the contract says and keeps it so. JSON reads back what it wrote.
  pub repository-Contract_keyspace :
      Contract
        (repository C K)
        by_sort_key
        (IsReady C faithful K Answers contents lawful)
        (view C faithful K Answers contents lawful)
  repository-Contract_keyspace = record {
    find_ready = λ q s h. find_ready s h q;
    create_new = λ r s h. Stores.create_new C faithful K Answers contents lawful s h r;
    create_old = λ r old s h. Stores.create_old C faithful K Answers contents lawful s h r old;
    update_old = λ r old s h. Stores.update_old C faithful K Answers contents lawful s h r old;
    update_new = λ r s h. Stores.update_new C faithful K Answers contents lawful s h r;
    delete_old = λ q old s h. delete_old s h q old;
    delete_new = λ q s h. delete_new s h q;
    read_old = λ q r s h. read_old s h q r;
    read_new = λ q s h. read_new s h q;
    list_ready = list_ready;
  }
