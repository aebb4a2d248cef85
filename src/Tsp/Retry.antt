-- ===== src/Tsp/Retry.antt =====
-- The retry loop ends, with the outcome of the first attempt that settles.
use trust_registry_build_pip.Base.{
  ℕ, suc, zero, ◌+◌, ◌*◌, ◌≤◌, ◌<◌, leb, Bool, true, false, not, ◌||◌, ◌≡◌, ◌⊎◌, inl, inr, refl,
  ◌∙◌, arith, Option, some, Result, ok, err, Bool-cases,
}
use trust_registry_build_pip.Tsp.{
  AtmError, is_transient_unpack_error, min, retry_from, retry_transient,
}

abbrev pub transient : {T : Type 0} → Result AtmError T → Bool
transient (ok value) = false
transient (err e) = is_transient_unpack_error e

module _ {T W : Type 0} (op : W → Result AtmError T × W) (sleep : ℕ → W → W)
    (attempts max_backoff : ℕ) where
  -- The world before an attempt, counted from 0: after the earlier attempts and the waits.
  unfoldable pub before : ℕ → ℕ → W → W
  before zero backoff w = w
  before (suc n) backoff w = before n (min (backoff * 2) max_backoff) (sleep backoff (op w).1)

  -- The loop that is at the given attempt stops at the `n`-th from there: the outcome is that of its
  -- call, the earlier ones failed transiently, and it did not, or was the last that is allowed.
  pub record Stops (backoff attempt : ℕ) (w : W) (found : Option (Result AtmError T × W))
      : Type 0 where
    pub n : ℕ
    pub outcome : found ≡ some (op (before n backoff w))
    pub earlier : (m : ℕ) → m < n → transient (op (before m backoff w)).0 ≡ true
    pub settled : (transient (op (before n backoff w)).0 ≡ false) ⊎ (attempts ≤ attempt + n)
    pub allowed : (n ≡ 0) ⊎ (attempt + n ≤ attempts)

  stop_now :
      (fuel backoff attempt : ℕ) (w : W)
      → leb attempts attempt || not (transient (op w).0) ≡ true
      → retry_from op sleep attempts max_backoff (suc fuel) backoff attempt w ≡ some (op w)
  unfolding retry_from
  stop_now fuel backoff attempt w h = ground arith

  go_on :
      (fuel backoff attempt : ℕ) (w : W)
      → leb attempts attempt || not (transient (op w).0) ≡ false
      → retry_from op sleep attempts max_backoff (suc fuel) backoff attempt w
        ≡ retry_from op sleep attempts max_backoff fuel
            (min (backoff * 2) max_backoff)
            (attempt + 1)
            (sleep backoff (op w).1)
  unfolding retry_from
  go_on fuel backoff attempt w h = ground arith

  earlier_or_first :
      (backoff : ℕ) (w : W) (k : ℕ)
      → transient (op w).0 ≡ true
      → ((m : ℕ)
          → m < k
          → transient (op (before m (min (backoff * 2) max_backoff) (sleep backoff (op w).1))).0
            ≡ true)
      → (m : ℕ) → m < suc k
      → transient (op (before m backoff w)).0 ≡ true
  unfolding before
  earlier_or_first backoff w k first rest zero h = first
  earlier_or_first backoff w k first rest (suc m) h = rest m (omega arith)

  Stops-now :
      (fuel backoff attempt : ℕ) (w : W)
      → leb attempts attempt || not (transient (op w).0) ≡ true
      → Stops backoff attempt w
          (retry_from op sleep attempts max_backoff (suc fuel) backoff attempt w)
  unfolding before
  Stops-now fuel backoff attempt w stop = record {
    n = 0;
    outcome = stop_now fuel backoff attempt w stop;
    earlier = λ m lt. absurd (omega arith);
    settled = ground arith;
    allowed = inl refl;
  }

  Stops-later :
      (fuel backoff attempt : ℕ) (w : W)
      → leb attempts attempt || not (transient (op w).0) ≡ false
      → Stops (min (backoff * 2) max_backoff) (attempt + 1) (sleep backoff (op w).1) (
          retry_from op sleep attempts max_backoff fuel
            (min (backoff * 2) max_backoff)
            (attempt + 1)
            (sleep backoff (op w).1))
      → Stops backoff attempt w
          (retry_from op sleep attempts max_backoff (suc fuel) backoff attempt w)
  unfolding before
  Stops-later fuel backoff attempt w more rest = record {
    n = suc rest.n;
    outcome = go_on fuel backoff attempt w more ∙ rest.outcome;
    earlier = earlier_or_first backoff w rest.n (ground arith) rest.earlier;
    settled = ground (arith, rest.settled);
    allowed = ground (arith, rest.allowed);
  }

  retry_from-Stops :
      (fuel backoff attempt : ℕ) (w : W)
      → attempts ≤ attempt + fuel
      → Stops backoff attempt w
          (retry_from op sleep attempts max_backoff (suc fuel) backoff attempt w)
  retry_from-Stops zero backoff attempt w h = Stops-now zero backoff attempt w (ground arith)
  retry_from-Stops (suc fuel) backoff attempt w h =
      elim (Bool-cases (leb attempts attempt || not (transient (op w).0))) [
        | inl stop ↦ Stops-now (suc fuel) backoff attempt w stop
        | inr more ↦ Stops-later (suc fuel) backoff attempt w more (
            retry_from-Stops fuel (min (backoff * 2) max_backoff) (attempt + 1)
              (sleep backoff (op w).1) (omega arith))
      ]

  -- The loop returns. It makes one attempt, and more only up to the allowed number; its outcome is that
  -- of the last attempt, which succeeds, fails for good or is the last that is allowed, and every
  -- attempt before it failed transiently.
  pub retry_transient-Stops :
      (initial_backoff : ℕ) (w : W)
      → Stops initial_backoff 1 w (retry_transient op sleep attempts max_backoff initial_backoff w)
  unfolding retry_transient
  retry_transient-Stops initial_backoff w =
      retry_from-Stops attempts initial_backoff 1 w (omega arith)
