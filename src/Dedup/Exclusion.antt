-- ===== src/Dedup/Exclusion.antt =====
-- Copies of a document that are delivered at the same time: claims, completions and releases of any
-- keys interleave, and the clock advances between them.
use text.Mathlib.TextEquality.{eq_iff}
use trust_registry_build_pip.Base.{
  ℕ, ◌+◌, ◌<◌, ◌≤◌, String, ◌≡◌, ◌≢◌, sym, ap, subst, arith, Option, some, ok, if◌then◌else◌, ◌==◌,
  string_eq, inl, inr, Option-cases,
}
use trust_registry_build_pip.Base.HashMap
use trust_registry_build_pip.Base.HashMap.{
  Distinct, get-insert, get-remove, insert-Distinct, remove-Distinct,
}
use trust_registry_build_pip.TrustTasks.Framework.{Framework}
use trust_registry_build_pip.Dedup.{
  StoredOutcome, acquired, Entry, done, MemoryMessageIdStore, is_live, claim, complete, release,
}
use trust_registry_build_pip.Dedup.Store.{
  live, ttl-claim, in_flight_ttl-claim, after_claim, claim_done, claim_busy, get-claim_free,
  claim-Distinct, get-claim, window,
}

module _ (F : Framework) (from_std : ℕ → Option ℕ) where
  pub record Moment : Type 0 where
    pub store : MemoryMessageIdStore F
    pub now : ℕ

  -- One call of any task, or the passing of time. The claim of `k` is not released.
  pub data Step (k : String) (a b : Moment) : Type 0 where
    tick : (later : ℕ) → a.now ≤ later → b ≡ record a { now = later } → Step k a b
    claimed :
        (j : String) → b ≡ record a { store = after_claim F from_std a.store a.now j } → Step k a b
    completed :
        (j : String) (x : StoredOutcome F)
        → b ≡ record a { store = (complete F from_std a.now j x a.store).1 }
        → Step k a b
    released :
        (j : String)
        → k ≢ j
        → b ≡ record a { store = (release F from_std a.now j a.store).1 }
        → Step k a b

  pub data Steps (k : String) (a : Moment) : Moment → Type 0 where
    here : Steps k a a
    next : {b c : Moment} → Steps k a b → Step k b c → Steps k a c

  abbrev Lasts : ℕ → ℕ → Entry F → Type 0
  Lasts until in_flight_ttl (Entry.in_flight claimed_at) =
      until ≤ claimed_at + window F from_std in_flight_ttl
  Lasts until in_flight_ttl (done x expires_at) = until ≤ expires_at

  record Held (k : String) (until : ℕ) (m : Moment) : Type 0 where
    distinct : Distinct m.store.entries
    room : until ≤ m.now + window F from_std m.store.ttl
    entry : Entry F
    present : HashMap.get m.store.entries k ≡ some entry
    lasts : Lasts until m.store.in_flight_ttl entry

  Held-live :
      (k : String) (until : ℕ) (m : Moment) (h : Held k until m)
      → m.now < until
      → live F from_std m.store m.now k ≡ some h.entry
  unfolding live is_live
  Held-live k until m h t = ground arith

  claim-Held :
      (k j : String) (until : ℕ) (m : Moment)
      → m.now < until
      → Held k until m
      → Held k until (record m { store = after_claim F from_std m.store m.now j })
  claim-Held k j until m t h = record {
    distinct = claim-Distinct F from_std m.store h.distinct m.now j;
    room = rw ttl-claim h.room;
    entry = h.entry;
    present = get-claim F from_std m.store h.distinct m.now j k h.entry (Held-live k until m h t);
    lasts = rw in_flight_ttl-claim h.lasts;
  }

  complete-Held :
      (k j : String) (x : StoredOutcome F) (until : ℕ) (m : Moment)
      → Held k until m
      → Held k until (record m { store = (complete F from_std m.now j x m.store).1 })
  unfolding complete
  complete-Held k j x until m h =
      let put = done x (m.now + window F from_std m.store.ttl) in
      record {
        distinct = insert-Distinct m.store.entries j put h.distinct;
        room = h.room;
        entry = if j == k then put else h.entry;
        present = ground (arith, get-insert m.store.entries j k put, h.present);
        lasts = ground (arith, h.room, h.lasts);
      }

  release-Held :
      (k j : String) (until : ℕ) (m : Moment)
      → k ≢ j
      → Held k until m
      → Held k until (record m { store = (release F from_std m.now j m.store).1 })
  unfolding release
  release-Held k j until m ne h = record {
    distinct = remove-Distinct m.store.entries j h.distinct;
    room = h.room;
    entry = h.entry;
    present = ground (arith, get-remove m.store.entries j k, eq_iff j k, h.present);
    lasts = h.lasts;
  }

  Step-Held :
      (k : String) (until : ℕ) {a b : Moment}
      → Step k a b
      → a.now < until
      → Held k until a
      → Held k until b
  Step-Held k until {a} (tick later le e) t h = subst (Held k until) (sym e) (record {
    distinct = h.distinct;
    room = omega (arith, h.room);
    entry = h.entry;
    present = h.present;
    lasts = h.lasts;
  })
  Step-Held k until {a} (claimed j e) t h =
      subst (Held k until) (sym e) (claim-Held k j until a t h)
  Step-Held k until {a} (completed j x e) t h =
      subst (Held k until) (sym e) (complete-Held k j x until a h)
  Step-Held k until {a} (released j ne e) t h =
      subst (Held k until) (sym e) (release-Held k j until a ne h)

  Step-now : {k : String} {a b : Moment} → Step k a b → a.now ≤ b.now
  Step-now (tick later le e) = rw e le
  Step-now (claimed j e) = rw e (omega arith)
  Step-now (completed j x e) = rw e (omega arith)
  Step-now (released j ne e) = rw e (omega arith)

  Steps-Held :
      (k : String) (until : ℕ) {a b : Moment}
      → Held k until a
      → Steps k a b
      → b.now < until
      → Held k until b
  Steps-Held k until h here t = h
  Steps-Held k until h (next {b} ss s) t =
      let before : b.now < until = omega (arith, Step-now s) in
      Step-Held k until s before (Steps-Held k until h ss before)

  not_granted :
      (k : String) (m : Moment) (x : Entry F)
      → Distinct m.store.entries
      → live F from_std m.store m.now k ≡ some x
      → (claim F from_std m.now k m.store).0 ≢ ok acquired
  not_granted k m (Entry.in_flight at) d h e =
      cc (ap (λ p. p.0) (claim_busy F from_std m.store d m.now k at h))
  not_granted k m (done o at) d h e =
      cc (ap (λ p. p.0) (claim_done F from_std m.store d m.now k o at h))

  acquired-Held :
      (k : String) (until : ℕ) (m : Moment)
      → Distinct m.store.entries
      → (claim F from_std m.now k m.store).0 ≡ ok acquired
      → until ≤ m.now + window F from_std m.store.in_flight_ttl
      → until ≤ m.now + window F from_std m.store.ttl
      → Held k until (record m { store = after_claim F from_std m.store m.now k })
  acquired-Held k until m distinct e flight ttl =
      elim (Option-cases (live F from_std m.store m.now k)) [
        | inr (x, h) ↦ absurd (not_granted k m x distinct h e)
        | inl free ↦ record {
          distinct = claim-Distinct F from_std m.store distinct m.now k;
          room = rw ttl-claim ttl;
          entry = Entry.in_flight m.now;
          present = get-claim_free F from_std m.store distinct m.now k free;
          lasts = rw in_flight_ttl-claim flight;
        }
      ]

  -- In a store where no key stands twice, once a task has acquired a key that is not released, no
  -- other claim of the key is granted before the first of the two expiry times counted from that
  -- claim, whatever calls interleave.
  pub claim_exclusive :
      (k : String) (until : ℕ) (a b : Moment)
      → Distinct a.store.entries
      → (claim F from_std a.now k a.store).0 ≡ ok acquired
      → until ≤ a.now + window F from_std a.store.in_flight_ttl
      → until ≤ a.now + window F from_std a.store.ttl
      → Steps k (record a { store = after_claim F from_std a.store a.now k }) b
      → b.now < until
      → (claim F from_std b.now k b.store).0 ≢ ok acquired
  claim_exclusive k until a b distinct e flight ttl steps t =
      let h = Steps-Held k until (acquired-Held k until a distinct e flight ttl) steps t in
      not_granted k b h.entry h.distinct (Held-live k until b h t)
