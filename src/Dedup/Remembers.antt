-- ===== src/Dedup/Remembers.antt =====
-- What the store remembers of an outcome, and which of its calls leave that as it is.
use trust_registry_build_pip.Base.{
  ℕ, ◌+◌, ◌<◌, String, ◌≡◌, ◌≢◌, ap, arith, Option, none, some, if◌then◌else◌, string_eq, inl, inr,
  Bool-cases,
}
use text.Mathlib.TextEquality.{eq_iff}
use trust_registry_build_pip.Base.HashMap
use trust_registry_build_pip.Base.HashMap.{
  Distinct, keep, get-insert, get-remove, insert-Distinct, remove-Distinct,
}
use trust_registry_build_pip.TrustTasks.Framework.{Framework, TaskOutcome}
use trust_registry_build_pip.Dedup.{
  StoredOutcome, done, MemoryMessageIdStore, is_live, complete, release, is_cacheable, from_outcome,
}
use trust_registry_build_pip.Dedup.Store.{live, after_claim, claim-Distinct, get-claim, window}

module _ (F : Framework) (from_std : ℕ → Option ℕ) where
  -- The store holds the outcome of the key until the given time.
  pub record Remembers (k : String) (o : StoredOutcome F) (until : ℕ) (s : MemoryMessageIdStore F)
      : Type 0 where
    pub distinct : Distinct s.entries
    pub entry : HashMap.get s.entries k ≡ some (done o until)

  pub Remembers-live :
      (k : String) (o : StoredOutcome F) (until now : ℕ) (s : MemoryMessageIdStore F)
      → Remembers k o until s
      → now < until
      → live F from_std s now k ≡ some (done o until)
  unfolding live is_live
  Remembers-live k o until now s r h = ground arith

  pub claim-Remembers :
      (k : String) (o : StoredOutcome F) (until now : ℕ) (j : String) (s : MemoryMessageIdStore F)
      → Remembers k o until s
      → now < until
      → Remembers k o until (after_claim F from_std s now j)
  claim-Remembers k o until now j s r h = record {
    distinct = claim-Distinct F from_std s r.distinct now j;
    entry =
        get-claim F from_std s r.distinct now j k (done o until)
          (Remembers-live k o until now s r h);
  }

  pub complete-Remembers :
      (k : String) (o : StoredOutcome F) (until now : ℕ) (j : String) (x : StoredOutcome F)
      (s : MemoryMessageIdStore F)
      → k ≢ j
      → Remembers k o until s
      → Remembers k o until (complete F from_std now j x s).1
  unfolding complete
  complete-Remembers k o until now j x s ne r = record {
    distinct = insert-Distinct s.entries j (done x (now + window F from_std s.ttl)) r.distinct;
    entry =
        ground
          (arith, get-insert s.entries j k (done x (now + window F from_std s.ttl)), eq_iff j k);
  }

  pub release-Remembers :
      (k : String) (o : StoredOutcome F) (until now : ℕ) (j : String) (s : MemoryMessageIdStore F)
      → k ≢ j
      → Remembers k o until s
      → Remembers k o until (release F from_std now j s).1
  unfolding release
  release-Remembers k o until now j s ne r = record {
    distinct = remove-Distinct s.entries j r.distinct;
    entry = ground (arith, get-remove s.entries j k, eq_iff j k);
  }

  pub apart :
      (k j : String) (o : StoredOutcome F) (until now : ℕ) (s : MemoryMessageIdStore F)
      → Remembers k o until s
      → now < until
      → live F from_std s now j ≡ none
      → k ≢ j
  apart k j o until now s r h free e =
      ground (arith, ap (live F from_std s now) e, Remembers-live k o until now s r h)

  pub resolve-Remembers :
      (k : String) (o : StoredOutcome F) (until now : ℕ) (j : String) (x : TaskOutcome F)
      (s : MemoryMessageIdStore F)
      → k ≢ j
      → Remembers k o until s
      → Remembers k o until
          (if is_cacheable F x
            then complete F from_std now j (from_outcome F x) s
            else release F from_std now j s).1
  resolve-Remembers k o until now j x s ne r = elim (Bool-cases (is_cacheable F x)) [
    | inl c ↦ rw c (complete-Remembers k o until now j (from_outcome F x) s ne r)
    | inr c ↦ rw c (release-Remembers k o until now j s ne r)
  ]
