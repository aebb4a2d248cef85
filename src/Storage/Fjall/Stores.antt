-- ===== src/Storage/Fjall/Stores.antt =====
-- The changes of `FjallStorage` that store a record, over a medium that answers.
use trust_registry_build_pip.Base.{String, ◌≡◌, refl, Option, none, some, Result, ok, string_eq}
use trust_registry_build_pip.Domain.Record.{TrustRecord}
use trust_registry_build_pip.Domain.Key.{TrustRecordKey, from_record, sk}
use trust_registry_build_pip.Storage.Repository.{
  View, put, by_sort_key, FailsWith, already_exists, not_found,
}
use trust_registry_build_pip.Storage.KeyValue.{Codec, Faithful, IsFiled, view_of}
use trust_registry_build_pip.Storage.KeyValue.Filed.{
  view_some, view_none, store-IsFiled, view-store,
}
use trust_registry_build_pip.Storage.Fjall.{Keyspace, create, update}
use trust_registry_build_pip.Storage.Fjall.Medium.{Lawful}

module _ {V : Type 0} (C : Codec V) (faithful : Faithful C) (K : Keyspace V)
    (Answers : K.State → Type 0) (contents : K.State → String → Option V)
    (lawful : Lawful K Answers contents) where
  pub record IsReady (s : K.State) : Type 0 where
    pub answers : Answers s
    pub filed : IsFiled C (contents s)

  abbrev pub view : K.State → View
  view s = view_of C (contents s)

  module _ (s : K.State) (h : IsReady s) where
    -- What `encode` writes of a record.
    abbrev bytes : TrustRecord → V
    bytes r = (faithful.round_trip r).0

    abbrev pub written : TrustRecord → Result String (Unit {0}) × K.State
    written r = K.insert (sk (from_record r)) (bytes r) s

    pub written-IsReady :
        (r : TrustRecord)
        → IsReady (written r).1
          × ((j : TrustRecordKey)
              → view (written r).1 j ≡ put by_sort_key (view s) (from_record r) (some r) j)
    written-IsReady r =
        let law = lawful.insert_answers (sk (from_record r)) (bytes r) s h.answers in
        let d = (faithful.round_trip r).2 in
        (
          record {
            answers = law.1;
            filed =
                store-IsFiled C (contents s) h.filed r (bytes r) d (contents (written r).1) law.2;
          },
          view-store C (contents s) h.filed r (bytes r) d (contents (written r).1) law.2,
        )

    create_new-eq :
        (r : TrustRecord) → view s (from_record r) ≡ none → create C K r s ≡ (ok tt, (written r).1)
    unfolding create
    create_new-eq r e =
        let key = sk (from_record r) in
        simp (
          (faithful.round_trip r).1,
          lawful.contains_answers key s h.answers,
          view_none C (contents s) h.filed (from_record r) e,
          (lawful.insert_answers key (bytes r) s h.answers).0,
        )

    pub create_old :
        (r old : TrustRecord)
        → view s (from_record r) ≡ some old
        → FailsWith already_exists (create C K r s).0 × ((create C K r s).1 ≡ s)
    unfolding create
    create_old r old e =
        let key = sk (from_record r) in
        simp
          (
            (faithful.round_trip r).1,
            lawful.contains_answers key s h.answers,
            (view_some C (contents s) h.filed (from_record r) old e).1,
          )
          (refl, refl)

    pub create_new :
        (r : TrustRecord)
        → view s (from_record r) ≡ none
        → ((create C K r s).0 ≡ ok tt)
          × IsReady (create C K r s).1
          × ((j : TrustRecordKey)
              → view (create C K r s).1 j ≡ put by_sort_key (view s) (from_record r) (some r) j)
    create_new r e = rw (create_new-eq r e) (refl, (written-IsReady r).0, (written-IsReady r).1)

    update_old-eq :
        (r old : TrustRecord)
        → view s (from_record r) ≡ some old
        → update C K r s ≡ (ok tt, (written r).1)
    unfolding update
    update_old-eq r old e =
        let key = sk (from_record r) in
        simp (
          (faithful.round_trip r).1,
          lawful.contains_answers key s h.answers,
          (view_some C (contents s) h.filed (from_record r) old e).1,
          (lawful.insert_answers key (bytes r) s h.answers).0,
        )

    pub update_old :
        (r old : TrustRecord)
        → view s (from_record r) ≡ some old
        → ((update C K r s).0 ≡ ok tt)
          × IsReady (update C K r s).1
          × ((j : TrustRecordKey)
              → view (update C K r s).1 j ≡ put by_sort_key (view s) (from_record r) (some r) j)
    update_old r old e =
        rw (update_old-eq r old e) (refl, (written-IsReady r).0, (written-IsReady r).1)

    pub update_new :
        (r : TrustRecord)
        → view s (from_record r) ≡ none
        → FailsWith not_found (update C K r s).0 × ((update C K r s).1 ≡ s)
    unfolding update
    update_new r e =
        let key = sk (from_record r) in
        simp
          (
            (faithful.round_trip r).1,
            lawful.contains_answers key s h.answers,
            view_none C (contents s) h.filed (from_record r) e,
          )
          (refl, refl)
