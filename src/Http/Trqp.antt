-- ===== src/Http/Trqp.antt =====
-- trust-registry/src/http/handlers/trqp/mod.rs: the two REST queries. The time and its RFC 3339 text
-- are given, as is the outcome of the extraction of the body.
pub mod Answers
use trust_registry_build_pip.Base.{
  ℕ, String, Option, none, some, Result, ok, err, ok_or, map_err, ◌>>=◌, format, List, [], ◌∷◌,
}
use mathlib.Core.Option
use trust_registry_build_pip.Domain.Json.{
  Value, Context, string, array, object, cons, nil, field, end,
}
use trust_registry_build_pip.Domain.Record.{
  TrustRecord, TrustRecordIds, merge_contexts, none_authorized, none_recognized,
}
use trust_registry_build_pip.Domain.Key.{from_ids}
use trust_registry_build_pip.Storage.Repository.{RepositoryError, error_to_string, Repository}
use trust_registry_build_pip.Http.Error.{AppError, bad_request, not_found, internal}

pub record OutputDto : Type 0 where
  pub trust_record : TrustRecord
  pub time_requested : String
  pub time_evaluated : String
  pub message : String

pub record InputDto : Type 0 where
  pub ids : TrustRecordIds
  pub context : Option Context

-- Why the body was not extracted: `body_text` of the rejection.
unfoldable pub rejected : String → AppError
rejected body_text =
    bad_request body_text (some (array (cons (object (field "issue" (string body_text) end)) nil)))

abbrev pub merged : TrustRecord → Option Context → TrustRecord
merged r none = r
merged r (some c) = merge_contexts r c

abbrev pub authorized_message : TrustRecord → String
authorized_message r =
    format
      (r.entity_id ∷ " authorized to " ∷ r.action ∷ "+" ∷ r.resource ∷ " by " ∷ r.authority_id ∷ [])

abbrev pub recognized_message : TrustRecord → String
recognized_message r = format (r.entity_id ∷ " recognized by " ∷ r.authority_id ∷ [])

-- A handler's outcome, and the store that it leaves.
abbrev pub Handled : Type 0 → Type 0 → Type 0
Handled S A = S → Result AppError A × S

module _ (R : Repository) where
  -- The `?` of a query that failed and of a record that is not there.
  abbrev pub found :
      Result RepositoryError (Option TrustRecord) → Option Context → Result AppError TrustRecord
  found (err e) context = err (internal (error_to_string e) none)
  found (ok none) context = err (not_found "Trust record not found" none)
  found (ok (some r)) context = ok (merged r context)

  unfoldable pub handle_trqp : Result String InputDto → Handled R.Store TrustRecord
  unfolding rejected
  handle_trqp (err e) s = (err (rejected e), s)
  handle_trqp (ok input) s =
      let (query_result, s') = R.find_by_query (from_ids input.ids) s in
      (found query_result input.context, s')

  module _ (rfc3339 : ℕ → String) (requested_at evaluated_at : ℕ) where
    abbrev pub output :
        (TrustRecord → TrustRecord) → (TrustRecord → String) → TrustRecord → OutputDto
    output hide message r =
        let trust_record = hide r in
        record {
          trust_record = trust_record;
          time_requested = rfc3339 requested_at;
          time_evaluated = rfc3339 evaluated_at;
          message = message trust_record;
        }

    abbrev answer :
        (TrustRecord → OutputDto)
        → Result AppError TrustRecord × R.Store
        → Result AppError OutputDto × R.Store
    answer out (trust_record, s) = (trust_record >>= λ r. ok (out r), s)

    unfoldable pub handle_trqp_authorization : Result String InputDto → Handled R.Store OutputDto
    unfolding handle_trqp
    handle_trqp_authorization payload s =
        answer (output none_recognized authorized_message) (handle_trqp payload s)

    unfoldable pub handle_trqp_recognition : Result String InputDto → Handled R.Store OutputDto
    unfolding handle_trqp
    handle_trqp_recognition payload s =
        answer (output none_authorized recognized_message) (handle_trqp payload s)
