-- ===== src/Http/Trqp/Answers.antt =====
-- What the REST queries answer, over any repository that meets its contract.
use trust_registry_build_pip.Base.{ℕ, String, Option, none, some, ok, err, ◌≡◌, refl}
use trust_registry_build_pip.Domain.Json.{Context, merge}
use trust_registry_build_pip.Domain.Record.{
  TrustRecord, merge_contexts, none_authorized, none_recognized,
}
use trust_registry_build_pip.Domain.Key.{from_ids, from_query, from_record}
use trust_registry_build_pip.Storage.Repository.{Repository, View, Contract, Slots}
use trust_registry_build_pip.Http.Error.{AppError, not_found, into_parts}
use trust_registry_build_pip.Http.Trqp.{
  InputDto, OutputDto, handle_trqp, handle_trqp_authorization, handle_trqp_recognition, merged,
  output, authorized_message, recognized_message,
}

-- The context of an answer: the stored one, with the members of the query merged in.
abbrev pub context_after : TrustRecord → Option Context → Context
context_after r none = r.context
context_after r (some c) = merge r.context c

-- What the merge of a context keeps.
merged-Kept :
    (r : TrustRecord) (context : Option Context)
    → ((merged r context).authorized ≡ r.authorized)
      × ((merged r context).recognized ≡ r.recognized)
      × ((merged r context).context ≡ context_after r context)
      × (from_record (merged r context) ≡ from_record r)
unfolding merge_contexts from_record
merged-Kept r none = (refl, refl, refl, refl)
merged-Kept r (some c) = (refl, refl, refl, refl)

module _ (R : Repository) (N : Slots) (IsReady : R.Store → Type 0) (view : R.Store → View)
    (C : Contract R N IsReady view) (rfc3339 : ℕ → String) (requested_at evaluated_at : ℕ)
    (input : InputDto) (s : R.Store) (ready : IsReady s) where
  abbrev pub stored : Option TrustRecord
  stored = view s (from_query (from_ids input.ids))

  -- On a ready store, an authorization query whose body is well formed leaves the store as it is. It
  -- succeeds exactly if a record stands under the four identifiers. The answer then carries the
  -- stored authorized flag, no recognized flag, and the stored context with that of the query merged
  -- in. With no record the answer is the error with status 404.
  pub handle_trqp_authorization-view :
      let answer = handle_trqp_authorization R rfc3339 requested_at evaluated_at (ok input) s in
      (answer.1 ≡ s)
      × ((r : TrustRecord)
          → stored ≡ some r
          → (out : OutputDto) × (answer.0 ≡ ok out)
            × (out.trust_record.authorized ≡ r.authorized)
            × (out.trust_record.recognized ≡ none)
            × (out.trust_record.context ≡ context_after r input.context)
            × (from_record out.trust_record ≡ from_record r))
      × (stored ≡ none → (e : AppError) × (answer.0 ≡ err e) × ((into_parts e).status ≡ 404))
  unfolding handle_trqp_authorization handle_trqp none_recognized into_parts from_record
  handle_trqp_authorization-view =
      let asked = C.find_ready (from_ids input.ids) s ready in
      (
        rw asked refl,
        λ r e.
            let kept = merged-Kept r input.context in
            (
              output R rfc3339 requested_at evaluated_at none_recognized authorized_message
                  (merged r input.context),
              simp (asked, e),
              kept.0,
              refl,
              kept.2,
              kept.3,
            ),
        λ e. (not_found "Trust record not found" none, simp (asked, e), refl),
      )

  -- On a ready store, a recognition query whose body is well formed leaves the store as it is. It
  -- succeeds exactly if a record stands under the four identifiers. The answer then carries the
  -- stored recognized flag, no authorized flag, and the stored context with that of the query merged
  -- in. With no record the answer is the error with status 404.
  pub handle_trqp_recognition-view :
      let answer = handle_trqp_recognition R rfc3339 requested_at evaluated_at (ok input) s in
      (answer.1 ≡ s)
      × ((r : TrustRecord)
          → stored ≡ some r
          → (out : OutputDto) × (answer.0 ≡ ok out)
            × (out.trust_record.recognized ≡ r.recognized)
            × (out.trust_record.authorized ≡ none)
            × (out.trust_record.context ≡ context_after r input.context)
            × (from_record out.trust_record ≡ from_record r))
      × (stored ≡ none → (e : AppError) × (answer.0 ≡ err e) × ((into_parts e).status ≡ 404))
  unfolding handle_trqp_recognition handle_trqp none_authorized into_parts from_record
  handle_trqp_recognition-view =
      let asked = C.find_ready (from_ids input.ids) s ready in
      (
        rw asked refl,
        λ r e.
            let kept = merged-Kept r input.context in
            (
              output R rfc3339 requested_at evaluated_at none_authorized recognized_message
                  (merged r input.context),
              simp (asked, e),
              kept.1,
              refl,
              kept.2,
              kept.3,
            ),
        λ e. (not_found "Trust record not found" none, simp (asked, e), refl),
      )
