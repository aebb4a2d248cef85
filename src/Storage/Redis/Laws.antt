-- ===== src/Storage/Redis/Laws.antt =====
-- `RedisStorage` meets the contract of a repository over a connection that answers.
use trust_registry_build_pip.Storage.Redis.Stores
use trust_registry_build_pip.Storage.Redis.Stores.{IsReady, view}
use trust_registry_build_pip.Base.{
  String, ℕ, ◌≡◌, ◌↔◌, refl, Option, none, some, Result, ok, err, string_eq, inl, inr,
}
use trust_registry_build_pip.Domain.Record.{TrustRecord}
use trust_registry_build_pip.Domain.Key.{
  TrustRecordQuery, TrustRecordKey, from_record, from_query, sk,
}
use trust_registry_build_pip.Storage.Repository.{
  record_not_found, TrustRecordList, Listed, Contract, put, by_sort_key, FailsWith, not_found,
}
use trust_registry_build_pip.Storage.Local.{query_text}
use trust_registry_build_pip.Storage.KeyValue.{Codec, Faithful, view_of, readables}
use trust_registry_build_pip.Storage.KeyValue.Filed.{
  view_some, view_none, scan-view, take_out-IsFiled, view-take_out, take_out-none, lookup-cases,
}
use trust_registry_build_pip.Storage.Redis.{
  Connection, repository, find_by_query, delete, list, read,
}
use trust_registry_build_pip.Storage.Redis.Scan.{
  concat, values_of, values_of-Held, scan_loop-readables,
}
use trust_registry_build_pip.Storage.Redis.Medium.{Lawful}

module _ {V : Type 0} (C : Codec V) (faithful : Faithful C) (K : Connection V)
    (Answers : K.State → Type 0) (contents : K.State → String → Option V) (rounds : K.State → ℕ)
    (lawful : Lawful K Answers contents rounds C) where
  module _ (s : K.State) (h : IsReady C faithful K Answers contents rounds lawful s) where
    find_ready :
        (q : TrustRecordQuery)
        → find_by_query C K q s
          ≡ (ok (view C faithful K Answers contents rounds lawful s (from_query q)), s)
    unfolding find_by_query view_of
    find_ready q =
        let got = lawful.get_answers (sk (from_query q)) s h.answers in
        elim (lookup-cases C (contents s) h.filed (from_query q)) [
          | inl gone ↦ simp (got, gone.0)
          | inr there ↦ simp (got, there.2, there.3)
        ]

    abbrev left : TrustRecordQuery → Result String ℕ × K.State
    left q = K.del (sk (from_query q)) s

    delete_old-eq :
        (q : TrustRecordQuery) (old : TrustRecord)
        → view C faithful K Answers contents rounds lawful s (from_query q) ≡ some old
        → delete C K q s ≡ (ok tt, (left q).1)
    unfolding delete
    delete_old-eq q old e = simp (
      (lawful.del_answers (sk (from_query q)) s h.answers).0,
      (view_some C (contents s) h.filed (from_query q) old e).1,
    )

    delete_new-eq :
        (q : TrustRecordQuery)
        → view C faithful K Answers contents rounds lawful s (from_query q) ≡ none
        → delete C K q s ≡ (err (record_not_found (query_text "Record not found: " q)), (left q).1)
    unfolding delete
    delete_new-eq q e = simp (
      (lawful.del_answers (sk (from_query q)) s h.answers).0,
      view_none C (contents s) h.filed (from_query q) e,
    )

    left-IsReady :
        (q : TrustRecordQuery) → IsReady C faithful K Answers contents rounds lawful (left q).1
    left-IsReady q =
        let law = lawful.del_answers (sk (from_query q)) s h.answers in
        record {
          answers = law.1;
          filed =
              take_out-IsFiled C (contents s) h.filed (from_query q) (contents (left q).1) law.2;
        }

    delete_old :
        (q : TrustRecordQuery) (old : TrustRecord)
        → view C faithful K Answers contents rounds lawful s (from_query q) ≡ some old
        → ((delete C K q s).0 ≡ ok tt)
          × IsReady C faithful K Answers contents rounds lawful (delete C K q s).1
          × ((j : TrustRecordKey)
              → view C faithful K Answers contents rounds lawful (delete C K q s).1 j
                ≡ put by_sort_key
                    (view C faithful K Answers contents rounds lawful s)
                    (from_query q)
                    none
                    j)
    delete_old q old e =
        let law = lawful.del_answers (sk (from_query q)) s h.answers in
        rw (delete_old-eq q old e) (
          refl,
          left-IsReady q,
          view-take_out C (contents s) h.filed (from_query q) (contents (left q).1) law.2,
        )

    delete_new :
        (q : TrustRecordQuery)
        → view C faithful K Answers contents rounds lawful s (from_query q) ≡ none
        → FailsWith not_found (delete C K q s).0
          × IsReady C faithful K Answers contents rounds lawful (delete C K q s).1
          × ((j : TrustRecordKey)
              → view C faithful K Answers contents rounds lawful (delete C K q s).1 j
                ≡ view C faithful K Answers contents rounds lawful s j)
    delete_new q e =
        let law = lawful.del_answers (sk (from_query q)) s h.answers in
        rw (delete_new-eq q e) (
          refl,
          left-IsReady q,
          take_out-none C (contents s) h.filed (from_query q) (contents (left q).1) law.2 e,
        )

    read_old :
        (q : TrustRecordQuery) (r : TrustRecord)
        → view C faithful K Answers contents rounds lawful s (from_query q) ≡ some r
        → read C K q s ≡ (ok r, s)
    unfolding read
    read_old q r e =
        let there = view_some C (contents s) h.filed (from_query q) r e in
        simp (lawful.get_answers (sk (from_query q)) s h.answers, there.1, there.2)

    read_new :
        (q : TrustRecordQuery)
        → view C faithful K Answers contents rounds lawful s (from_query q) ≡ none
        → FailsWith not_found (read C K q s).0 × ((read C K q s).1 ≡ s)
    unfolding read
    read_new q e =
        simp
          (
            lawful.get_answers (sk (from_query q)) s h.answers,
            view_none C (contents s) h.filed (from_query q) e,
          )
          (refl, refl)

    list_ready :
        (l : TrustRecordList) × (list C K rounds s ≡ (ok l, s))
        × ((r : TrustRecord)
            → Listed r l.records
              ↔ (view C faithful K Answers contents rounds lawful s (from_record r) ≡ some r))
    unfolding list
    list_ready =
        let scan = lawful.scan_answers s h.answers in
        let gets : (t : String) → K.get t s ≡ ok (contents s t) =
          λ t. lawful.get_answers t s h.answers in
        let values = values_of C K s (contents s) gets (concat scan.0) in
        (
          record { records = readables C values },
          simp (scan_loop-readables C K s (contents s) gets (rounds s) 0 scan.0 scan.1 scan.2),
          scan-view C (contents s) h.filed values (λ v.
              let held = values_of-Held C K s (contents s) gets v (concat scan.0) in
              (
                λ l.
                    let there = held.0 l in
                    (there.0, (scan.3 there.0 v there.2).0 there.1, there.2),
                λ p. held.1 (p.0, (scan.3 p.0 v p.2).1 p.1, p.2),
              )),
        )

  -- The Redis storage is a repository that tells keys apart by their sort keys: over a connection
  -- that answers and where what stands under a key of the registry is a record with that sort key,
  -- every method does what the contract says and keeps it so. JSON reads back what it wrote, and an
  -- iteration of `SCAN` ends within the given rounds.
  pub repository-Contract_connection :
      Contract
        (repository C K rounds)
        by_sort_key
        (IsReady C faithful K Answers contents rounds lawful)
        (view C faithful K Answers contents rounds lawful)
  repository-Contract_connection = record {
    find_ready = λ q s h. find_ready s h q;
    create_new = λ r s h. Stores.create_new C faithful K Answers contents rounds lawful s h r;
    create_old =
        λ r old s h. Stores.create_old C faithful K Answers contents rounds lawful s h r old;
    update_old =
        λ r old s h. Stores.update_old C faithful K Answers contents rounds lawful s h r old;
    update_new = λ r s h. Stores.update_new C faithful K Answers contents rounds lawful s h r;
    delete_old = λ q old s h. delete_old s h q old;
    delete_new = λ q s h. delete_new s h q;
    read_old = λ q r s h. read_old s h q r;
    read_new = λ q s h. read_new s h q;
    list_ready = list_ready;
  }
