-- ===== src/Dedup/Retry.antt =====
-- What a sender may retry: a write that failed transiently, and a write that is still being processed.
use trust_registry_build_pip.Base.{
  ℕ, String, true, false, not, ◌≡◌, ap, ◌∙◌, arith, Option, none, some, err, if◌then◌else◌,
  string_eq,
}
use text.Mathlib.TextEquality.{eq_iff}
use trust_registry_build_pip.Base.HashMap.{Distinct, get-remove, remove-Distinct}
use trust_registry_build_pip.TrustTasks.Framework.{Framework, Handler, internal_error}
use trust_registry_build_pip.TrustTasks.Proof.{is_write_slug}
use trust_registry_build_pip.Dedup.{
  MemoryMessageIdStore, Entry, memory, message_key, is_cacheable, release, complete, from_outcome,
  busy,
}
use trust_registry_build_pip.Dedup.Store.{live, after_claim, claim-Distinct}
use trust_registry_build_pip.Dedup.Replay.{Delivery, deliver, settled, deliver_free, deliver-busy}

module _ (F : Framework) (from_std : ℕ → Option ℕ) {W : Type 0}
    (handle : F.Document → Handler F W) where
  transient :
      (doc : F.Document) (id reason : String)
      → is_cacheable F (err (F.reject_with doc id (internal_error reason))) ≡ false
  unfolding is_cacheable
  transient doc id reason = ap not (F.retryable-reject_with doc id (internal_error reason))

  module _ (d : Delivery F) (s : MemoryMessageIdStore F) (w : W) where
    abbrev key : String
    key = message_key F d.doc

    settled_released :
        is_cacheable F (handle d.doc w).0 ≡ false
        → settled F from_std handle d s w
          ≡ (release F from_std d.later key (after_claim F from_std s d.now key)).1
    settled_released e =
        ap
          (λ b.
            (if b
              then complete F from_std d.later key (from_outcome F (handle d.doc w).0)
                  (after_claim F from_std s d.now key)
              else release F from_std d.later key (after_claim F from_std s d.now key)).1)
          e

    released-Distinct :
        Distinct s.entries
        → Distinct (release F from_std d.later key (after_claim F from_std s d.now key)).1.entries
    unfolding release
    released-Distinct distinct =
        remove-Distinct _ key (claim-Distinct F from_std s distinct d.now key)

    released-live :
        (now : ℕ)
        → live F from_std
            (release F from_std d.later key (after_claim F from_std s d.now key)).1
            now
            key
          ≡ none
    unfolding release live
    released-live now =
        ground
          (arith, get-remove (after_claim F from_std s d.now key).entries key key, eq_iff key key)

  -- In a store where no key stands twice, a write that finds its message id free and is answered
  -- with an internal error is not remembered: a redelivery, at any time and with no other delivery
  -- in between, is applied to the world that the first left.
  pub transient_write_retried :
      (d again : Delivery F) (s : MemoryMessageIdStore F) (w : W) (id reason : String)
      → Distinct s.entries
      → is_write_slug (F.slug d.doc) ≡ true
      → live F from_std s d.now (message_key F d.doc) ≡ none
      → (handle d.doc w).0 ≡ err (F.reject_with d.doc id (internal_error reason))
      → again.doc ≡ d.doc
      → let first = deliver F from_std handle d (s, w) in
        let second = deliver F from_std handle again (first.1, first.2) in
        (first.0 ≡ err (F.reject_with d.doc id (internal_error reason)))
        × (second.0 ≡ (handle d.doc first.2).0)
        × (second.2 ≡ (handle d.doc first.2).1)
  transient_write_retried d again s w id reason distinct write free failed same =
      let first = deliver_free F from_std handle d s w write distinct free in
      let left =
        (release F from_std d.later (message_key F d.doc)
          (after_claim F from_std s d.now (message_key F d.doc))).1 in
      let state : settled F from_std handle d s w ≡ left =
        settled_released d s w (ap (is_cacheable F) failed ∙ transient d.doc id reason) in
      let w' = (handle d.doc w).1 in
      let free' : live F from_std left again.now (message_key F again.doc) ≡ none =
        ap (λ x. live F from_std left again.now (message_key F x)) same
        ∙ released-live d s w again.now in
      let second =
        deliver_free F from_std handle again left w'
          (ap (λ x. is_write_slug (F.slug x)) same ∙ write) (released-Distinct d s w distinct)
          free' in
      rw (first, state)
        (
          failed,
          ap (λ x. x.0) second ∙ ap (λ x. (handle x w').0) same,
          ap (λ x. x.2) second ∙ ap (λ x. (handle x w').1) same,
        )

  -- In a store where no key stands twice, a write whose message id is being processed is answered
  -- with an error that says that it may be retried, and leaves the handlers' world as it is.
  pub in_flight_retryable :
      (d : Delivery F) (s : MemoryMessageIdStore F) (w : W) (at : ℕ)
      → Distinct s.entries
      → is_write_slug (F.slug d.doc) ≡ true
      → live F from_std s d.now (message_key F d.doc) ≡ some (Entry.in_flight at)
      → let answered = deliver F from_std handle d (s, w) in
        (e : F.ErrorResponse) × (answered.0 ≡ err e) × (F.retryable e ≡ true) × (answered.2 ≡ w)
  in_flight_retryable d s w at distinct write busy_ =
      let told = deliver-busy F from_std handle d s w write distinct at busy_ in
      (
        busy F handle (memory F from_std) d.fresh d.doc,
        ap (λ x. x.0) told,
        F.retryable-with_retryable _ true,
        ap (λ x. x.2) told,
      )
