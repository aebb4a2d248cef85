-- ===== src/Storage/Local/Keyed.antt =====
-- Maps in which every record stands under its own key, once.
use trust_registry_build_pip.Base.{
  ◌≡◌, ◌↔◌, ◌⊎◌, refl, sym, ap, ◌∙◌, arith, [], ◌∷◌, Option, none, some, if◌then◌else◌, ◌==◌, inl,
  inr, Bool-cases,
}
use trust_registry_build_pip.Base.HashMap
use trust_registry_build_pip.Base.HashMap.{HashMap, Distinct, find}
use trust_registry_build_pip.Domain.Record.{TrustRecord}
use trust_registry_build_pip.Domain.Key.{
  TrustRecordQuery, TrustRecordKey, key_eq, key_beq_iff, from_record, from_query,
}
use trust_registry_build_pip.Storage.Repository.{Listed}
use trust_registry_build_pip.Storage.Local.{matches_query}

-- Every record stands under its own key.
abbrev pub IsKeyed : HashMap TrustRecordKey TrustRecord → Type 0
IsKeyed [] = Unit
IsKeyed ((k, r) ∷ m) = (k ≡ from_record r) × IsKeyed m

pub insert-IsKeyed :
    (m : HashMap TrustRecordKey TrustRecord) (r : TrustRecord)
    → IsKeyed m
    → IsKeyed (HashMap.insert m (from_record r) r)
unfolding HashMap.insert
insert-IsKeyed [] r h = (refl, tt)
insert-IsKeyed ((k, w) ∷ m) r h =
    ground (arith, insert-IsKeyed m r h.1, key_beq_iff k (from_record r))

pub remove-IsKeyed :
    (m : HashMap TrustRecordKey TrustRecord) (k : TrustRecordKey)
    → IsKeyed m
    → IsKeyed (HashMap.remove m k)
unfolding HashMap.remove
remove-IsKeyed [] k h = tt
remove-IsKeyed ((j, w) ∷ m) k h = ground (arith, remove-IsKeyed m k h.1)

matches-key :
    (r : TrustRecord) (q : TrustRecordQuery)
    → matches_query r q ≡ key_eq.equal (from_record r) (from_query q)
unfolding from_record from_query
matches-key r q = ground arith

-- A scan of all values for the four identifiers finds what a lookup of the key finds.
pub find-get :
    (q : TrustRecordQuery) (m : HashMap TrustRecordKey TrustRecord)
    → IsKeyed m
    → find (λ r. matches_query r q) (HashMap.values m) ≡ HashMap.get m (from_query q)
unfolding HashMap.get HashMap.values find
find-get q [] h = refl
find-get q ((k, r) ∷ m) h =
    rw (matches-key r q, h.0)
      (ap (λ o. if key_eq.equal (from_record r) (from_query q) then some r else o)
        (find-get q m h.1))

module _ (w r : TrustRecord) (m : HashMap TrustRecordKey TrustRecord)
    (d : HashMap.get m (from_record w) ≡ none) where
  -- What a lookup of the key of `r` gives when `w` stands before the map.
  abbrev found : Option TrustRecord
  found = if from_record w == from_record r then some w else HashMap.get m (from_record r)

  found_first : w ≡ r → found ≡ some r
  found_first e = ground (arith, key_beq_iff (from_record w) (from_record r), ap from_record e, e)

  found_later : HashMap.get m (from_record r) ≡ some r → found ≡ some r
  found_later e = ground (
    arith,
    key_beq_iff (from_record w) (from_record r),
    d,
    e,
    ap (HashMap.get {V = TrustRecord} m),
  )

  found_cases : found ≡ some r → (w ≡ r) ⊎ (HashMap.get m (from_record r) ≡ some r)
  found_cases e = elim (Bool-cases (from_record w == from_record r)) [
    | inl same ↦ inl (ground (arith, same))
    | inr other ↦ inr (ground (arith, other))
  ]

-- A record is among the values exactly if it stands under its key.
pub values-get :
    (r : TrustRecord) (m : HashMap TrustRecordKey TrustRecord)
    → IsKeyed m
    → Distinct m
    → Listed r (HashMap.values m) ↔ (HashMap.get m (from_record r) ≡ some r)
unfolding HashMap.get HashMap.values
values-get r [] h d = ground arith
values-get r ((k, w) ∷ m) h d =
    let rest = values-get r m h.1 d.1 in
    let free : HashMap.get m (from_record w) ≡ none = ap (HashMap.get m) (sym h.0) ∙ d.0 in
    let same : (if k == from_record r then some w else HashMap.get m (from_record r))
        ≡ found w r m free =
      ap (λ j. if j == from_record r then some w else HashMap.get m (from_record r)) h.0 in
    (
      λ l. same ∙ elim l [
        | inl e ↦ found_first w r m free e
        | inr later ↦ found_later w r m free (rest.0 later)
      ],
      λ e. elim (found_cases w r m free (sym same ∙ e)) [
        | inl first ↦ inl first
        | inr later ↦ inr (rest.1 later)
      ],
    )
