-- ===== src/Dedup/Replay.antt =====
-- A write whose outcome was remembered is not applied again: its redeliveries are answered with the
-- first outcome, whatever other documents arrive in between.
use trust_registry_build_pip.Base.{
  ℕ, ◌+◌, ◌<◌, String, true, false, ◌≡◌, refl, sym, subst, ◌∙◌, ap, arith, Option, none, some, ok,
  err, if◌then◌else◌, string_eq, List, [], ◌∷◌, inl, inr, Option-cases, Bool-cases,
}
use text.Mathlib.TextEquality.{eq_iff}
use trust_registry_build_pip.Base.HashMap.{Distinct, get-insert, insert-Distinct}
use trust_registry_build_pip.TrustTasks.Framework.{Framework, Handler, TaskOutcome}
use trust_registry_build_pip.TrustTasks.Proof.{is_write_slug}
use trust_registry_build_pip.Dedup.{
  StoredOutcome, Entry, done, MemoryMessageIdStore, memory, complete, release, message_key,
  is_cacheable, from_outcome, into_outcome, busy, dispatch_idempotent,
}
use trust_registry_build_pip.Dedup.Remembers.{
  Remembers, Remembers-live, claim-Remembers, resolve-Remembers, apart,
}
use trust_registry_build_pip.Dedup.Store.{
  live, ttl-claim, after_claim, claim_free, claim_done, claim_busy, claim-Distinct, window,
}

into_outcome-from_outcome :
    (F : Framework) (o : TaskOutcome F) → into_outcome F (from_outcome F o) ≡ o
unfolding into_outcome from_outcome
into_outcome-from_outcome F (ok d) = refl
into_outcome-from_outcome F (err e) = refl

pub record Delivery (F : Framework) : Type 0 where
  pub doc : F.Document
  pub now : ℕ
  pub later : ℕ
  pub fresh : String

module _ (F : Framework) (from_std : ℕ → Option ℕ) {W : Type 0}
    (handle : F.Document → Handler F W) where
  open F use {Document, slug}

  abbrev pub World : Type 0
  World = MemoryMessageIdStore F × W

  abbrev pub deliver : Delivery F → World → TaskOutcome F × MemoryMessageIdStore F × W
  deliver d sw = dispatch_idempotent F handle (memory F from_std) d.now d.later d.fresh d.doc sw

  module _ (d : Delivery F) (s : MemoryMessageIdStore F) (w : W) where
    abbrev key : String
    key = message_key F d.doc

    abbrev pub applied : TaskOutcome F × W
    applied = handle d.doc w

    abbrev pub settled : MemoryMessageIdStore F
    settled =
        let s' = after_claim F from_std s d.now key in
        (if is_cacheable F applied.0
          then complete F from_std d.later key (from_outcome F applied.0) s'
          else release F from_std d.later key s').1

    deliver_read : is_write_slug (slug d.doc) ≡ false → deliver d (s, w) ≡ (applied.0, s, applied.1)
    unfolding dispatch_idempotent
    deliver_read h = rw h

    module _ (write : is_write_slug (slug d.doc) ≡ true) (distinct : Distinct s.entries) where
      pub deliver_free :
          live F from_std s d.now key ≡ none → deliver d (s, w) ≡ (applied.0, settled, applied.1)
      unfolding dispatch_idempotent
      deliver_free h = rw (write, ap (λ p. p.0) (claim_free F from_std s distinct d.now key h))

      deliver-done :
          (o : StoredOutcome F) (e : ℕ)
          → live F from_std s d.now key ≡ some (done o e)
          → deliver d (s, w) ≡ (into_outcome F o, after_claim F from_std s d.now key, w)
      unfolding dispatch_idempotent
      deliver-done o e h =
          rw (write, ap (λ p. p.0) (claim_done F from_std s distinct d.now key o e h))

      pub deliver-busy :
          (at : ℕ)
          → live F from_std s d.now key ≡ some (Entry.in_flight at)
          → deliver d (s, w) ≡ (
            err (busy F handle (memory F from_std) d.fresh d.doc),
            after_claim F from_std s d.now key,
            w,
          )
      unfolding dispatch_idempotent
      deliver-busy at h =
          rw (write, ap (λ p. p.0) (claim_busy F from_std s distinct d.now key at h))

  -- No delivery before the expiry disturbs what the store remembers.
  deliver-Remembers :
      (k : String) (o : StoredOutcome F) (until : ℕ) (d : Delivery F) (s : MemoryMessageIdStore F)
      (w : W)
      → d.now < until
      → Remembers F from_std k o until s
      → Remembers F from_std k o until (deliver d (s, w)).1
  deliver-Remembers k o until d s w h r =
      let j = message_key F d.doc in
      let kept = claim-Remembers F from_std k o until d.now j s r h in
      elim (Bool-cases (is_write_slug (slug d.doc))) [
        | inr read ↦ rw (deliver_read d s w read) r
        | inl write ↦ elim (Option-cases (live F from_std s d.now j)) [
          | inl free ↦ rw (deliver_free d s w write r.distinct free) (
              resolve-Remembers F from_std k o until d.later j (applied d s w).0 _
                (apart F from_std k j o until d.now s r h free) kept)
          | inr (Entry.in_flight at, e) ↦ rw (deliver-busy d s w write r.distinct at e) kept
          | inr (done x at, e) ↦ rw (deliver-done d s w write r.distinct x at e) kept
        ]
      ]

  abbrev pub AllBefore : ℕ → List (Delivery F) → Type 0
  AllBefore until [] = Unit
  AllBefore until (d ∷ ds) = (d.now < until) × AllBefore until ds

  pub deliver_all : List (Delivery F) → World → World
  deliver_all [] sw = sw
  deliver_all (d ∷ ds) sw = let r = deliver d sw in deliver_all ds (r.1, r.2)

  deliver_all-Remembers :
      (k : String) (o : StoredOutcome F) (until : ℕ) (ds : List (Delivery F))
      (s : MemoryMessageIdStore F) (w : W)
      → AllBefore until ds
      → Remembers F from_std k o until s
      → Remembers F from_std k o until (deliver_all ds (s, w)).0
  unfolding deliver_all
  deliver_all-Remembers k o until [] s w h r = r
  deliver_all-Remembers k o until (d ∷ ds) s w h r =
      deliver_all-Remembers k o until ds _ _ h.1 (deliver-Remembers k o until d s w h.0 r)

  settled-Remembers :
      (d : Delivery F) (s : MemoryMessageIdStore F) (w : W)
      → Distinct s.entries
      → is_cacheable F (applied d s w).0 ≡ true
      → Remembers F from_std
          (message_key F d.doc)
          (from_outcome F (applied d s w).0)
          (d.later + window F from_std s.ttl)
          (settled d s w)
  unfolding complete
  settled-Remembers d s w distinct c =
      let k = message_key F d.doc in
      let s' = after_claim F from_std s d.now k in
      let outcome = from_outcome F (applied d s w).0 in
      let expires_at = d.later + window F from_std s'.ttl in
      let kept : Remembers F from_std k outcome expires_at
          (complete F from_std d.later k outcome s').1 =
        record {
          distinct =
              insert-Distinct s'.entries k (done outcome expires_at)
                (claim-Distinct F from_std s distinct d.now k);
          entry = ground (arith, get-insert s'.entries k k (done outcome expires_at), eq_iff k k);
        } in
      subst
        (λ b.
          Remembers F from_std k outcome (d.later + window F from_std s.ttl)
            (if b
              then complete F from_std d.later k outcome s'
              else release F from_std d.later k s').1)
        (sym c)
        (subst
          (λ t.
            Remembers F from_std k outcome (d.later + window F from_std t)
              (complete F from_std d.later k outcome s').1)
          (ttl-claim F from_std s d.now k) kept)

  deliver_remembered :
      (again : Delivery F) (k : String) (o : StoredOutcome F) (until : ℕ)
      (s : MemoryMessageIdStore F) (w : W)
      → is_write_slug (slug again.doc) ≡ true
      → message_key F again.doc ≡ k
      → again.now < until
      → Remembers F from_std k o until s
      → deliver again (s, w)
        ≡ (into_outcome F o, after_claim F from_std s again.now (message_key F again.doc), w)
  deliver_remembered again k o until s w write same h r =
      deliver-done again s w write r.distinct o until (
        subst (λ j. live F from_std s again.now j ≡ some (done o until)) (sym same)
          (Remembers-live F from_std k o until again.now s r h))

  -- In a store where no key stands twice, a write that finds its message id free and whose outcome
  -- is not a transient failure is applied once. Whatever documents arrive next before its outcome
  -- expires, a redelivery before then is answered with the outcome of the first delivery and
  -- leaves the handlers' world as it is.
  pub write_applied_once :
      (d again : Delivery F) (s : MemoryMessageIdStore F) (w : W) (between : List (Delivery F))
      → Distinct s.entries
      → is_write_slug (slug d.doc) ≡ true
      → live F from_std s d.now (message_key F d.doc) ≡ none
      → is_cacheable F (handle d.doc w).0 ≡ true
      → again.doc ≡ d.doc
      → AllBefore (d.later + window F from_std s.ttl) between
      → again.now < d.later + window F from_std s.ttl
      → let first = deliver d (s, w) in
        let reached = deliver_all between (first.1, first.2) in
        let second = deliver again reached in
        (first.0 ≡ (handle d.doc w).0)
        × (first.2 ≡ (handle d.doc w).1)
        × (second.0 ≡ first.0)
        × (second.2 ≡ reached.1)
  write_applied_once d again s w between distinct write free cacheable same before in_time =
      let first = deliver_free d s w write distinct free in
      let reached = deliver_all between (settled d s w, (handle d.doc w).1) in
      let kept =
        deliver_all-Remembers _ _ _ between (settled d s w) (handle d.doc w).1 before
          (settled-Remembers d s w distinct cacheable) in
      let second =
        deliver_remembered again _ _ _ reached.0 reached.1
          (subst (λ x. is_write_slug (slug x) ≡ true) (sym same) write) (ap (message_key F) same)
          in_time kept in
      rw first
        (refl, refl, ap (λ t. t.0) second ∙ into_outcome-from_outcome F _, ap (λ t. t.2) second)
