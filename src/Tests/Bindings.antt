-- ===== src/Tests/Bindings.antt =====
-- The REST and DIDComm queries over a registry with one record, an audit entry, and governance.
use trust_registry_build_pip.Base.{
  ℕ, String, ◌≡◌, refl, none, some, ok, err, ◌>>=◌, format, [], ◌∷◌,
}
use trust_registry_build_pip.Domain.Json.{null, object, end}
use trust_registry_build_pip.Domain.Record.{TrustRecord, TrustRecordIds}
use trust_registry_build_pip.Domain.Key.{from_ids, from_record}
use trust_registry_build_pip.Storage.Repository.{by_key}
use trust_registry_build_pip.Storage.Local.{repository}
use trust_registry_build_pip.Storage.Local.Laws.{IsReady, view, repository-Contract}
use trust_registry_build_pip.Http.Error.{AppError, into_parts}
use trust_registry_build_pip.Http.Trqp.{InputDto, OutputDto, handle_trqp_authorization}
use trust_registry_build_pip.Http.Trqp.Answers.{
  stored, context_after, handle_trqp_authorization-view,
}
use trust_registry_build_pip.Didcomm.Trqp.{
  Services, HandlerContext, handle, reply_with, query_authorization_message_type,
}
use trust_registry_build_pip.Didcomm.Trqp.Agreement.{body_for, handle-authorization}
use trust_registry_build_pip.Tests.Router.{one_storage, one-IsReady}

abbrev ids : TrustRecordIds
ids = record { entity_id = "did:e"; authority_id = "did:a"; action = "issue"; resource = "badge" }

abbrev rfc3339 : ℕ → String
rfc3339 t = "2024-01-01T00:00:00Z"

abbrev request : InputDto
request = record { ids = ids; context = none }

handle_trqp_authorization-view_example :
    let answer = handle_trqp_authorization repository rfc3339 1 2 (ok request) one_storage in
    let held =
      stored repository by_key IsReady view repository-Contract rfc3339 1 2 request one_storage
        one-IsReady in
    (answer.1 ≡ one_storage)
    × ((r : TrustRecord)
        → held ≡ some r
        → (out : OutputDto) × (answer.0 ≡ ok out)
          × (out.trust_record.authorized ≡ r.authorized)
          × (out.trust_record.recognized ≡ none)
          × (out.trust_record.context ≡ context_after r request.context)
          × (from_record out.trust_record ≡ from_record r))
    × (held ≡ none → (e : AppError) × (answer.0 ≡ err e) × ((into_parts e).status ≡ 404))
handle_trqp_authorization-view_example =
    handle_trqp_authorization-view repository by_key IsReady view repository-Contract rfc3339 1 2
      request one_storage one-IsReady

abbrev services : Services
services = record {
  rfc3339 = rfc3339;
  parse_query = λ v. ok (from_ids ids);
  record_to_value = λ r. ok (object end);
  pack_encrypted = λ m. ok m.id;
  forward_and_send_message = λ mediator packed. ok tt;
}

abbrev context : HandlerContext
context = record { profile_did = "did:r"; sender_did = "did:c"; mediator = some "did:m" }

handle-authorization_example :
    let typ : String = query_authorization_message_type in
    let rest = handle_trqp_authorization repository rfc3339 1 2 (ok request) one_storage in
    handle services repository 1 2 "m" context (record { typ = typ; body = null }) one_storage ≡ (
      body_for services rest.0
          >>= reply_with services context "m" (format (typ ∷ "/response" ∷ [])),
      rest.1,
    )
handle-authorization_example =
    handle-authorization services repository by_key IsReady view repository-Contract 1 2 "m" context
      ids null refl one_storage one-IsReady
