-- ===== src/Storage/Redis/Scan.antt =====
-- The loop of `RedisStorage::list` ends, and returns the records of all pages.
use trust_registry_build_pip.Base.{
  String, ℕ, zero, suc, ◌+◌, ◌≤◌, List, [], ◌∷◌, ◌++◌, ◌≡◌, ◌↔◌, refl, sym, ap, subst, ◌∙◌, arith,
  Option, none, some, Result, ok, err, Option-cases, Result-cases, inl, inr,
}
use mathlib.Core.List.{append-nil}
use trust_registry_build_pip.Domain.Record.{TrustRecord}
use trust_registry_build_pip.Storage.KeyValue.{Codec, Held, readables, push}
use trust_registry_build_pip.Storage.Redis.{Connection, fetch, scan_loop, pattern_}

-- The rounds of a scan of one state, from a cursor on: what each answers, until the cursor is 0.
pub data Iteration {V : Type 0} (C : Codec V) (K : Connection V) (s : K.State)
    : ℕ → List (List String) → Type 0 where
  last :
      {cursor : ℕ} {keys : List String}
      → K.scan cursor (pattern_ C K) s ≡ ok (0, keys)
      → Iteration C K s cursor (keys ∷ [])
  next :
      {cursor after : ℕ} {keys : List String} {pages : List (List String)}
      → K.scan cursor (pattern_ C K) s ≡ ok (suc after, keys)
      → Iteration C K s (suc after) pages
      → Iteration C K s cursor (keys ∷ pages)

abbrev pub concat : List (List String) → List String
concat [] = []
concat (page ∷ pages) = page ++ concat pages

abbrev pub length : List (List String) → ℕ
length [] = 0
length (page ∷ pages) = 1 + length pages

module _ {V : Type 0} (C : Codec V) (K : Connection V) (s : K.State) (c : String → Option V)
    (gets : (t : String) → K.get t s ≡ ok (c t)) where
  abbrev pub keep_value : Option V → List V → List V
  keep_value none vs = vs
  keep_value (some v) vs = v ∷ vs

  -- The values of the keys that have one.
  unfoldable pub values_of : List String → List V
  values_of [] = []
  values_of (t ∷ ts) = keep_value (c t) (values_of ts)

  values_of-append : (ts us : List String) → values_of (ts ++ us) ≡ values_of ts ++ values_of us
  unfolding values_of
  values_of-append [] us = refl
  values_of-append (t ∷ ts) us =
      ap (keep_value (c t)) (values_of-append ts us) ∙ keep_value-append (c t)
    where
      keep_value-append :
          (o : Option V)
          → keep_value o (values_of ts ++ values_of us)
            ≡ keep_value o (values_of ts) ++ values_of us
      keep_value-append none = refl
      keep_value-append (some v) = refl

  readables-append : (vs ws : List V) → readables C (vs ++ ws) ≡ readables C vs ++ readables C ws
  unfolding readables
  readables-append [] ws = refl
  readables-append (v ∷ vs) ws =
      ap (push C (C.decode v)) (readables-append vs ws) ∙ push-append (C.decode v)
    where
      push-append :
          (x : Result String TrustRecord)
          → push C x (readables C vs ++ readables C ws)
            ≡ push C x (readables C vs) ++ readables C ws
      push-append (ok r) = refl
      push-append (err e) = refl

  pub values_of-Held :
      (v : V) (ts : List String)
      → Held v (values_of ts) ↔ ((t : String) × Held t ts × (c t ≡ some v))
  unfolding values_of
  values_of-Held v [] = ground arith
  values_of-Held v (t ∷ ts) =
      let rest = values_of-Held v ts in
      elim (Option-cases (c t)) [
        | inl gone ↦ (
          λ l.
              let more = rest.0 (subst (λ o. Held v (keep_value o (values_of ts))) gone l) in
              (more.0, inr more.1, more.2),
          λ p.
              subst (λ o. Held v (keep_value o (values_of ts))) (sym gone)
                (elim p.1 [
                  | inl first ↦ absurd (ground (arith, gone, p.2, ap c first))
                  | inr more ↦ rest.1 (p.0, more, p.2)
                ]),
        )
        | inr there ↦ (
          λ l. elim (subst (λ o. Held v (keep_value o (values_of ts))) there.1 l) [
            | inl first ↦ (t, inl refl, there.1 ∙ ap some first)
            | inr later ↦ let more = rest.0 later in (more.0, inr more.1, more.2)
          ],
          λ p.
              subst (λ o. Held v (keep_value o (values_of ts))) (sym there.1)
                (elim p.1 [
                  | inl first ↦ inl (ground (arith, there.1, p.2, ap c first))
                  | inr more ↦ inr (rest.1 (p.0, more, p.2))
                ]),
        )
      ]

  fetch-readables : (ts : List String) → fetch C K ts s ≡ ok (readables C (values_of ts))
  unfolding fetch readables values_of
  fetch-readables [] = refl
  fetch-readables (t ∷ ts) = elim (Option-cases (c t)) [
    | inl gone ↦ simp (gets t, gone, fetch-readables ts)
    | inr there ↦ elim (Result-cases (C.decode there.0)) [
      | inl bad ↦ simp (gets t, there.1, bad.1, fetch-readables ts)
      | inr good ↦ simp (gets t, there.1, good.1, fetch-readables ts)
    ]
  ]

  -- With fuel for every page, the loop returns the records of all pages.
  pub scan_loop-readables :
      (fuel cursor : ℕ) (pages : List (List String))
      → Iteration C K s cursor pages
      → length pages ≤ fuel
      → scan_loop C K fuel cursor s ≡ some (ok (readables C (values_of (concat pages))))
  unfolding scan_loop
  scan_loop-readables zero cursor _ (last e) enough = ground (arith, enough)
  scan_loop-readables zero cursor _ (next e more) enough = ground (arith, enough)
  scan_loop-readables (suc fuel) cursor _ (last {keys = keys} e) enough =
      simp (e, fetch-readables keys)
        (ap (λ ts. some (ok (readables C (values_of ts)))) (sym (append-nil keys)))
  scan_loop-readables (suc fuel) cursor _
        (next {after = after} {keys = keys} {pages = pages} e more) enough =
      simp (e, fetch-readables keys, scan_loop-readables fuel (suc after) pages more (ground arith))
        (ap (λ rs. some (ok rs))
          (sym (
            ap (readables C) (values_of-append keys (concat pages))
            ∙ readables-append (values_of keys) (values_of (concat pages)))))
