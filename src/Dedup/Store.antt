-- ===== src/Dedup/Store.antt =====
-- What a claim, a completion and a release do to the entry of a key.
use trust_registry_build_pip.Base.{
  ℕ, String, ◌≡◌, ap, ◌∙◌, arith, Option, none, some, unwrap_or, ok, string_eq,
}
use text.Mathlib.TextEquality.{eq_iff}
use trust_registry_build_pip.Base.HashMap
use trust_registry_build_pip.Base.HashMap.{
  Distinct, keep, get-insert, get-remove, get-retain, insert-Distinct, remove-Distinct,
  retain-Distinct,
}
use trust_registry_build_pip.TrustTasks.Framework.{Framework}
use trust_registry_build_pip.Dedup.{
  StoredOutcome, Claim, acquired, replay, Entry, done, MemoryMessageIdStore, is_live, evict_expired,
  claim,
}

module _ (F : Framework) (from_std : ℕ → Option ℕ) where
  abbrev pub window : ℕ → ℕ
  window d = unwrap_or (from_std d) 0

  -- The entry of a key that has not expired.
  unfoldable pub live : MemoryMessageIdStore F → ℕ → String → Option (Entry F)
  live s now k = keep (is_live F now (window s.in_flight_ttl)) (HashMap.get s.entries k)

  abbrev pub after_claim : MemoryMessageIdStore F → ℕ → String → MemoryMessageIdStore F
  after_claim s now k = (claim F from_std now k s).1

  abbrev evicted : MemoryMessageIdStore F → ℕ → MemoryMessageIdStore F
  evicted s now = record s { entries = evict_expired F from_std s.entries now s.in_flight_ttl }

  pub ttl-claim :
      (s : MemoryMessageIdStore F) (now : ℕ) (k : String) → (after_claim s now k).ttl ≡ s.ttl
  unfolding claim
  ttl-claim s now k = ground arith

  pub in_flight_ttl-claim :
      (s : MemoryMessageIdStore F) (now : ℕ) (k : String)
      → (after_claim s now k).in_flight_ttl ≡ s.in_flight_ttl
  unfolding claim
  in_flight_ttl-claim s now k = ground arith

  module _ (s : MemoryMessageIdStore F) (distinct : Distinct s.entries) where
    get-evicted : (now : ℕ) (k : String) → HashMap.get (evicted s now).entries k ≡ live s now k
    unfolding evict_expired live
    get-evicted now k = get-retain (is_live F now (window s.in_flight_ttl)) s.entries k distinct

    evicted-Distinct : (now : ℕ) → Distinct (evicted s now).entries
    unfolding evict_expired
    evicted-Distinct now =
        retain-Distinct (is_live F now (window s.in_flight_ttl)) s.entries distinct

    pub claim_free :
        (now : ℕ) (k : String)
        → live s now k ≡ none
        → claim F from_std now k s ≡ (
          ok acquired,
          record s { entries = HashMap.insert (evicted s now).entries k (Entry.in_flight now) },
        )
    unfolding claim
    claim_free now k h = ground (arith, get-evicted now k)

    pub get-claim_free :
        (now : ℕ) (k : String)
        → live s now k ≡ none
        → HashMap.get (after_claim s now k).entries k ≡ some (Entry.in_flight now)
    get-claim_free now k h =
        ap (λ p. HashMap.get p.1.entries k) (claim_free now k h)
        ∙ (ground (arith, get-insert (evicted s now).entries k k (Entry.in_flight now), eq_iff k k))

    pub claim_done :
        (now : ℕ) (k : String) (o : StoredOutcome F) (e : ℕ)
        → live s now k ≡ some (done o e)
        → claim F from_std now k s ≡ (ok (replay o), evicted s now)
    unfolding claim
    claim_done now k o e h = ground (arith, get-evicted now k)

    pub claim_busy :
        (now : ℕ) (k : String) (at : ℕ)
        → live s now k ≡ some (Entry.in_flight at)
        → claim F from_std now k s ≡ (ok Claim.in_flight, evicted s now)
    unfolding claim
    claim_busy now k at h = ground (arith, get-evicted now k)

    pub claim-Distinct : (now : ℕ) (k : String) → Distinct (after_claim s now k).entries
    unfolding claim
    claim-Distinct now k = ground (
      arith,
      evicted-Distinct now,
      insert-Distinct (evicted s now).entries k (Entry.in_flight now) (evicted-Distinct now),
    )

    -- A claim leaves the entry of any key as it is, but for an expired one.
    pub get-claim :
        (now : ℕ) (k j : String) (x : Entry F)
        → live s now j ≡ some x
        → HashMap.get (after_claim s now k).entries j ≡ some x
    unfolding claim
    get-claim now k j x h = ground (
      arith,
      get-evicted now k,
      get-evicted now j,
      eq_iff k j,
      get-insert (evicted s now).entries k j (Entry.in_flight now),
    )
