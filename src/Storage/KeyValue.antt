-- ===== src/Storage/KeyValue.antt =====
-- Records as values under their sort keys: the view that a client of the key-value storages has
-- (fjall_storage.rs and redis_storage.rs under trust-registry/src/storage/adapters).
pub mod Filed
use text.Mathlib.TextEquality.{eq_iff}
use trust_registry_build_pip.Base.{
  String, Bool, true, false, List, [], ◌∷◌, map, ◌≡◌, ◌↔◌, ◌⊎◌, refl, sym, ap, subst, ◌∙◌, arith,
  Option, none, some, Result, ok, err, if◌then◌else◌, ◌==◌, string_eq, Bool-cases, Option-cases,
  Result-cases, inl, inr, format,
}
use Prim.Native.String
use trust_registry_build_pip.Domain.Record.{TrustRecord}
use trust_registry_build_pip.Domain.Key.{TrustRecordKey, sk, from_record, tr_sk_prefix}
use trust_registry_build_pip.Storage.Repository.{View, put, by_sort_key, Listed}

-- How a storage writes a record: `serde_json` over the derived `Serialize` and `Deserialize`.
pub record Codec (V : Type 0) : Type 0 where
  pub encode : TrustRecord → Result String V
  pub decode : V → Result String TrustRecord

-- What was written is read back.
pub record Faithful {V : Type 0} (C : Codec V) : Type 0 where
  pub round_trip : (r : TrustRecord) → (v : V) × (C.encode r ≡ ok v) × (C.decode v ≡ ok r)

-- The text starts with the prefix.
abbrev pub Prefixed : String → String → Type 0
Prefixed p t = (u : String) × (String.◌++◌ p u ≡ t)

pub sk-Prefixed : (k : TrustRecordKey) → Prefixed tr_sk_prefix (sk k)
unfolding sk
sk-Prefixed k =
    (format (k.authority_id ∷ "#" ∷ k.action ∷ "#" ∷ k.resource ∷ "#" ∷ k.entity_id ∷ []), refl)

-- The value is in the list.
abbrev pub Held : {A : Type 0} → A → List A → Type 0
Held a [] = ⊥
Held a (x ∷ xs) = (x ≡ a) ⊎ Held a xs

pub Held-map :
    {A B : Type 0} (f : A → B) (b : B) (xs : List A)
    → Held b (map f xs) ↔ ((a : A) × Held a xs × (f a ≡ b))
Held-map f b [] = ground arith
Held-map f b (x ∷ xs) = (
  λ l. elim l [
    | inl first ↦ (x, inl refl, first)
    | inr more ↦ let later = (Held-map f b xs).0 more in (later.0, inr later.1, later.2)
  ],
  λ p. elim p.1 [
    | inl first ↦ inl (ap f first ∙ p.2)
    | inr more ↦ inr ((Held-map f b xs).1 (p.0, more, p.2))
  ],
)

abbrev pub readable : Result String TrustRecord → Option TrustRecord
readable (err e) = none
readable (ok r) = some r

module _ {V : Type 0} (C : Codec V) where
  abbrev pub decoded : Option V → Option TrustRecord
  decoded none = none
  decoded (some v) = readable (C.decode v)

  unfoldable pub view_of : (String → Option V) → View
  view_of c k = decoded (c (sk k))

  -- What stands under a key of the registry is a record with that sort key.
  abbrev pub IsFiled : (String → Option V) → Type 0
  IsFiled c =
      (t : String) (v : V)
      → Prefixed tr_sk_prefix t
      → c t ≡ some v
      → (r : TrustRecord) × (C.decode v ≡ ok r) × (sk (from_record r) ≡ t)

  -- The values that decode, in order.
  abbrev pub push : Result String TrustRecord → List TrustRecord → List TrustRecord
  push (err e) rs = rs
  push (ok r) rs = r ∷ rs

  unfoldable pub readables : List V → List TrustRecord
  readables [] = []
  readables (v ∷ vs) = push (C.decode v) (readables vs)

  pub readables-Listed :
      (r : TrustRecord) (vs : List V)
      → Listed r (readables vs) ↔ ((v : V) × Held v vs × (C.decode v ≡ ok r))
  unfolding readables
  readables-Listed r [] = ground arith
  readables-Listed r (w ∷ vs) =
      let rest = readables-Listed r vs in
      elim (Result-cases (C.decode w)) [
        | inl bad ↦ (
          λ l.
              let later = rest.0 (subst (λ x. Listed r (push x (readables vs))) bad.1 l) in
              (later.0, inr later.1, later.2),
          λ p.
              subst (λ x. Listed r (push x (readables vs))) (sym bad.1)
                (elim p.1 [
                  | inl first ↦ absurd (ground (arith, bad.1, p.2, ap C.decode first))
                  | inr later ↦ rest.1 (p.0, later, p.2)
                ]),
        )
        | inr good ↦ (
          λ l. elim (subst (λ x. Listed r (push x (readables vs))) good.1 l) [
            | inl same ↦ (w, inl refl, good.1 ∙ ap ok same)
            | inr more ↦ let later = rest.0 more in (later.0, inr later.1, later.2)
          ],
          λ p.
              subst (λ x. Listed r (push x (readables vs))) (sym good.1)
                (elim p.1 [
                  | inl first ↦ inl (ground (arith, good.1, p.2, ap C.decode first))
                  | inr later ↦ inr (rest.1 (p.0, later, p.2))
                ]),
        )
      ]
