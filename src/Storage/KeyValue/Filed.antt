-- ===== src/Storage/KeyValue/Filed.antt =====
-- The view of a store of records under their sort keys, and what a write does to it.
use text.Mathlib.TextEquality.{eq_iff}
use trust_registry_build_pip.Base.{
  String, Bool, true, false, List, ◌≡◌, ◌↔◌, ◌⊎◌, refl, sym, ap, ◌∙◌, arith, Option, none, some,
  Result, ok, err, if◌then◌else◌, ◌==◌, string_eq, Bool-cases, Option-cases, inl, inr,
}
use trust_registry_build_pip.Domain.Record.{TrustRecord}
use trust_registry_build_pip.Domain.Key.{TrustRecordKey, sk, from_record, tr_sk_prefix}
use trust_registry_build_pip.Storage.Repository.{put, by_sort_key, Listed}
use trust_registry_build_pip.Storage.KeyValue.{
  Codec, Prefixed, sk-Prefixed, Held, readable, decoded, view_of, IsFiled, readables,
  readables-Listed,
}

module _ {V : Type 0} (C : Codec V) where
  readable_ok : (x : Result String TrustRecord) (r : TrustRecord) → readable x ≡ some r → x ≡ ok r
  readable_ok (ok a) r e = ground (arith, e)
  readable_ok (err a) r e = ground (arith, e)

  decoded-some :
      (o : Option V) (r : TrustRecord)
      → decoded C o ≡ some r
      → (v : V) × (o ≡ some v) × (C.decode v ≡ ok r)
  decoded-some none r e = ground (arith, e)
  decoded-some (some v) r e = (v, refl, readable_ok (C.decode v) r e)

  decoded-choice :
      (b : Bool) (o p : Option V)
      → decoded C (if b then o else p) ≡ (if b then decoded C o else decoded C p)
  decoded-choice true o p = refl
  decoded-choice false o p = refl

  module _ (c : String → Option V) (h : IsFiled C c) where
    pub view_some :
        (k : TrustRecordKey) (r : TrustRecord)
        → view_of C c k ≡ some r
        → (v : V) × (c (sk k) ≡ some v) × (C.decode v ≡ ok r)
    unfolding view_of
    view_some k r e = decoded-some (c (sk k)) r e

    pub view_none : (k : TrustRecordKey) → view_of C c k ≡ none → c (sk k) ≡ none
    unfolding view_of
    view_none k e = elim (Option-cases (c (sk k))) [
      | inl gone ↦ gone
      | inr found ↦ absurd (
          ground (
            arith,
            e,
            ap (decoded C) found.1,
            ap readable (h (sk k) found.0 (sk-Prefixed k) found.1).1,
          ))
    ]

    -- Nothing stands under the sort key, or a value that is read.
    pub lookup-cases :
        (k : TrustRecordKey)
        → ((c (sk k) ≡ none) × (view_of C c k ≡ none))
          ⊎ ((v : V) × (r : TrustRecord) × (c (sk k) ≡ some v)
              × (C.decode v ≡ ok r)
              × (view_of C c k ≡ some r))
    unfolding view_of
    lookup-cases k = elim (Option-cases (c (sk k))) [
      | inl gone ↦ inl (gone, ap (decoded C) gone)
      | inr found ↦
          let there = h (sk k) found.0 (sk-Prefixed k) found.1 in
          inr (found.0, there.0, found.1, there.1, ap (decoded C) found.1 ∙ ap readable there.1)
    ]

    pub view-Held :
        (r : TrustRecord)
        → (view_of C c (from_record r) ≡ some r) ↔ (
            (t : String) × (v : V) × Prefixed tr_sk_prefix t × (c t ≡ some v) × (C.decode v ≡ ok r))
    unfolding view_of
    view-Held r = (
      λ e.
          let found = view_some (from_record r) r e in
          (sk (from_record r), found.0, sk-Prefixed (from_record r), found.1, found.2),
      λ p.
          let there = h p.0 p.1 p.2 p.3 in
          let same : there.0 ≡ r = ground (arith, there.1, p.4) in
          ap (λ t. decoded C (c t)) (ap (λ x. sk (from_record x)) (sym same) ∙ there.2)
          ∙ ap (decoded C) p.3
          ∙ ap readable p.4,
    )

    -- The records of all values under keys of the registry are those in view.
    pub scan-view :
        (vs : List V)
        → ((v : V) → Held v vs ↔ ((t : String) × Prefixed tr_sk_prefix t × (c t ≡ some v)))
        → (r : TrustRecord) → Listed r (readables C vs) ↔ (view_of C c (from_record r) ≡ some r)
    scan-view vs law r = (
      λ l.
          let found = (readables-Listed C r vs).0 l in
          let there = (law found.0).0 found.1 in
          (view-Held r).1 (there.0, found.0, there.1, there.2, found.2),
      λ e.
          let there = (view-Held r).0 e in
          (readables-Listed C r vs).1
            (there.1, (law there.1).1 (there.0, there.2, there.3), there.4),
    )

    -- A write under a sort key, of nothing or of a record with that key.
    module _ (k : TrustRecordKey) (o : Option V) (c' : String → Option V)
        (w : (t : String) → c' t ≡ (if sk k == t then o else c t)) where
      pub write-IsFiled :
          ((v : V)
            → o ≡ some v
            → (r : TrustRecord) × (C.decode v ≡ ok r) × (sk (from_record r) ≡ sk k))
          → IsFiled C c'
      write-IsFiled f t v p e = elim (Bool-cases (sk k == t)) [
        | inl same ↦
            let there = f v (sym (w t ∙ ap (λ b. if b then o else c t) same) ∙ e) in
            (there.0, there.1, there.2 ∙ (eq_iff (sk k) t).0 same)
        | inr other ↦ h t v p (sym (w t ∙ ap (λ b. if b then o else c t) other) ∙ e)
      ]

      pub view-write :
          (j : TrustRecordKey) → view_of C c' j ≡ put by_sort_key (view_of C c) k (decoded C o) j
      unfolding view_of
      view-write j = ap (decoded C) (w (sk j)) ∙ decoded-choice (sk k == sk j) o (c (sk j))

    -- A record is written under its own key.
    module _ (r : TrustRecord) (v : V) (d : C.decode v ≡ ok r) (c' : String → Option V)
        (w : (t : String) → c' t ≡ (if sk (from_record r) == t then some v else c t)) where
      pub store-IsFiled : IsFiled C c'
      store-IsFiled =
          write-IsFiled (from_record r) (some v) c' w
            (λ x e. (r, ap C.decode (sym (some_inj e)) ∙ d, refl))
        where
          some_inj : {a b : V} → some a ≡ some b → a ≡ b
          some_inj e = ground (arith, e)

      pub view-store :
          (j : TrustRecordKey)
          → view_of C c' j ≡ put by_sort_key (view_of C c) (from_record r) (some r) j
      view-store j =
          view-write (from_record r) (some v) c' w j
          ∙ ap (λ o. put by_sort_key (view_of C c) (from_record r) (readable o) j) d

    -- What stands under a key is taken out.
    module _ (k : TrustRecordKey) (c' : String → Option V)
        (w : (t : String) → c' t ≡ (if sk k == t then none else c t)) where
      pub take_out-IsFiled : IsFiled C c'
      take_out-IsFiled = write-IsFiled k none c' w (λ x e. ground (arith, e))

      pub view-take_out :
          (j : TrustRecordKey) → view_of C c' j ≡ put by_sort_key (view_of C c) k none j
      view-take_out = view-write k none c' w

      -- Where nothing stood, nothing changes.
      pub take_out-none :
          view_of C c k ≡ none → (j : TrustRecordKey) → view_of C c' j ≡ view_of C c j
      unfolding view_of
      take_out-none e j = view-take_out j ∙ (elim (Bool-cases (sk k == sk j)) [
        | inl same ↦ simp same (sym e ∙ ap (λ t. decoded C (c t)) ((eq_iff (sk k) (sk j)).0 same))
        | inr other ↦ simp other
      ])
