-- ===== src/Didcomm/Trqp/Agreement.antt =====
-- The DIDComm queries answer what the REST queries answer.
use trust_registry_build_pip.Base.{
  ℕ, String, none, false, ◌==◌, string_eq, Result, ok, err, ◌>>=◌, ◌≡◌, format, [], ◌∷◌,
  Option-cases, inl, inr,
}
use trust_registry_build_pip.Domain.Json.{Value, string, object, end, insert}
use trust_registry_build_pip.Domain.Record.{TrustRecordIds}
use trust_registry_build_pip.Domain.Key.{from_ids, from_query}
use trust_registry_build_pip.Storage.Repository.{Repository, View, Contract, Slots}
use trust_registry_build_pip.Http.Error.{AppError}
use trust_registry_build_pip.Http.Trqp.{
  InputDto, OutputDto, handle_trqp, handle_trqp_authorization, handle_trqp_recognition,
}
use trust_registry_build_pip.Didcomm.Trqp.{
  Services, HandlerContext, handle, reply_with, output_body, query_authorization_message_type,
}

-- The answer as one JSON object: the members of the record, with the two times and the message of the
-- answer beside them.
abbrev pub as_json : OutputDto → Value → Value
as_json out (object members) = object (
    insert
      (insert (insert members "time_requested" (string out.time_requested)) "time_evaluated"
        (string out.time_evaluated))
      "message" (string out.message))
as_json out value = value

-- The body for the outcome of a REST query; where that is an error, the empty object.
abbrev pub body_for : Services → Result AppError OutputDto → Result String Value
body_for X (err e) = ok (object end)
body_for X (ok out) = X.record_to_value out.trust_record >>= λ value. ok (as_json out value)

module _ (X : Services) (R : Repository) (N : Slots) (IsReady : R.Store → Type 0)
    (view : R.Store → View) (C : Contract R N IsReady view) (requested_at evaluated_at : ℕ)
    (message_id : String) (ctx : HandlerContext) (ids : TrustRecordIds) (body : Value)
    (parses : X.parse_query body ≡ ok (from_ids ids)) (s : R.Store) (ready : IsReady s) where
  abbrev pub input : InputDto
  input = record { ids = ids; context = none }

  -- On a ready store and with a body that parses, the reply to an authorization query over DIDComm
  -- carries the answer that the REST endpoint gives to the same identifiers without a context at the
  -- same times, or the empty object where that answers with an error. The store stays as it is.
  pub handle-authorization :
      let typ : String = query_authorization_message_type in
      let rest = handle_trqp_authorization R X.rfc3339 requested_at evaluated_at (ok input) s in
      handle X R requested_at evaluated_at message_id ctx (record { typ = typ; body = body }) s ≡ (
        body_for X rest.0 >>= reply_with X ctx message_id (format (typ ∷ "/response" ∷ [])),
        rest.1,
      )
  unfolding handle handle_trqp_authorization handle_trqp output_body
  handle-authorization =
      let asked = C.find_ready (from_ids ids) s ready in
      elim (Option-cases (view s (from_query (from_ids ids)))) [
        | inl gone ↦ simp (parses, asked, gone)
        | inr there ↦ simp (parses, asked, there.1)
      ]

  -- On a ready store and with a body that parses, a message of any other type than the authorization
  -- query is answered as a recognition query: its reply carries the answer that the REST endpoint
  -- gives to the same identifiers without a context at the same times, or the empty object where
  -- that answers with an error. The store stays as it is.
  pub handle-recognition :
      (typ : String)
      → typ == query_authorization_message_type ≡ false
      → let rest = handle_trqp_recognition R X.rfc3339 requested_at evaluated_at (ok input) s in
        handle X R requested_at evaluated_at message_id ctx (record { typ = typ; body = body }) s
        ≡ (
          body_for X rest.0 >>= reply_with X ctx message_id (format (typ ∷ "/response" ∷ [])),
          rest.1,
        )
  unfolding handle handle_trqp_recognition handle_trqp output_body
  handle-recognition typ other =
      let asked = C.find_ready (from_ids ids) s ready in
      elim (Option-cases (view s (from_query (from_ids ids)))) [
        | inl gone ↦ simp (parses, asked, gone, other)
        | inr there ↦ simp (parses, asked, there.1, other)
      ]
