-- ===== src/Tests/Transports.antt =====
-- The admin protocol, the gates of the two bindings, the retries and the routing of replies at
-- concrete values.
use trust_registry_build_pip.Base.{
  ℕ, suc, zero, String, Bool, true, false, ◌≡◌, ◌↔◌, ◌⊎◌, refl, arith, none, some, Result, ok, err,
  [], ◌∷◌, string_eq,
}
use trust_registry_build_pip.Domain.Json.{Value, null}
use trust_registry_build_pip.Storage.Local.{LocalStorage, repository}
use trust_registry_build_pip.Audit.{unauthorized}
use trust_registry_build_pip.TrustTasks.Framework.{Handler}
use trust_registry_build_pip.TrustTasks.Proof.{is_write_slug}
use trust_registry_build_pip.TrustTasks.Gate.{Checks, gate}
use trust_registry_build_pip.TrustTasks.Gate.Access.{IsAuthorized, gate_open}
use trust_registry_build_pip.Dedup.{MessageIdStore, MemoryMessageIdStore, memory}
use trust_registry_build_pip.Didcomm.ProblemReport
use trust_registry_build_pip.Didcomm.Admin.Messages.{Requests}
use trust_registry_build_pip.Didcomm.Admin.{
  HandlerContext, problem, World, list_records_message_type,
}
use trust_registry_build_pip.Didcomm.Admin.Access.{
  Answered, denied, after, Performed, Reported, handle_denied, handle_admitted,
}
use trust_registry_build_pip.Didcomm.TrustTasks
use trust_registry_build_pip.Didcomm.TrustTasks.Access.{handle_unauthorized_write}
use trust_registry_build_pip.Tsp.{AtmError, did_error, retry_transient}
use trust_registry_build_pip.Tsp.Retry.{Stops, retry_transient-Stops}
use trust_registry_build_pip.Tests.Fixtures.{Doc, framework, write_doc}

abbrev requests : Requests
requests = record {
  parse_create = λ v. err "no";
  parse_update = λ v. err "no";
  parse_delete = λ v. err "no";
  parse_read = λ v. err "no";
}

abbrev ctx : HandlerContext
ctx = record { sender_did = "did:b"; thid = some "t"; pthid = none }

abbrev world : World LocalStorage
world = record { store = record { records = []; poisoned = false }; audits = []; sent = [] }

handle_denied_example :
    let w' = after repository requests ctx 7 ("did:a" ∷ []) list_records_message_type null world in
    (w'.store ≡ world.store)
    × Answered ctx list_records_message_type unauthorized
        (problem (ProblemReport.unauthorized (denied ctx)))
        world
        w'
handle_denied_example =
    handle_denied repository requests ctx 7 ("did:a" ∷ []) list_records_message_type null world refl

handle_admitted_example :
    let w' = after repository requests ctx 7 ("did:b" ∷ []) list_records_message_type null world in
    (response_type : String) × (outcome : Result String Value) × (s : LocalStorage) × Performed
      repository requests ctx 7
      ("did:b" ∷ [])
      list_records_message_type
      null
      world
      (response_type, (outcome, s))
    × (w'.store ≡ s)
    × Reported repository requests ctx 7
        ("did:b" ∷ [])
        list_records_message_type
        null
        world
        outcome
        response_type
        w'
handle_admitted_example =
    handle_admitted repository requests ctx 7 ("did:b" ∷ []) list_records_message_type null world
      refl refl

abbrev checks : Checks framework
checks = record {
  resolve_parties = λ my sender d. ok tt;
  validate_basic = λ now my d. ok tt;
  verify_json = λ d. err "bad signature";
}

gate_open_example :
    (gate framework checks ("did:b" ∷ []) "did:me" "did:b" 5 "x" write_doc ≡ ok tt) ↔ (
      (checks.resolve_parties "did:me" "did:b" write_doc ≡ ok tt)
      × (checks.validate_basic 5 "did:me" write_doc ≡ ok tt)
      × ((is_write_slug write_doc.slug ≡ false)
          ⊎ IsAuthorized framework checks ("did:b" ∷ []) "did:me" "did:b" 5 "x" write_doc))
gate_open_example = gate_open framework checks ("did:b" ∷ []) "did:me" "did:b" 5 "x" write_doc

bad_proof : ¬ IsAuthorized framework checks ("did:b" ∷ []) "did:me" "did:b" 5 "x" write_doc
bad_proof h = ground (arith, h.2)

write_doc-write : is_write_slug write_doc.slug ≡ true
unfolding is_write_slug
write_doc-write = refl

-- The world counts the documents that were handled.
abbrev count : Doc → Handler framework ℕ
count doc w = (ok doc, suc w)

abbrev store : MessageIdStore framework
store = memory framework (λ d. some d)

abbrev no_ids : MemoryMessageIdStore framework
no_ids = record { ttl = 60; in_flight_ttl = 10; entries = [] }

abbrev parse : Value → Result String Doc
parse v = ok write_doc

abbrev sender : TrustTasks.HandlerContext
sender = record { sender_did = "did:b"; my_did = "did:me"; admin_dids = "did:b" ∷ [] }

abbrev arrival : TrustTasks.Arrival
arrival = record { now = 5; claimed_at = 6; resolved_at = 7; fresh = "x" }

handle_unauthorized_write_example :
    (e : Bool × String) × (TrustTasks.handle framework checks parse none count store sender arrival
        null
        (no_ids, 0)
      ≡ (some (err e), no_ids, 0))
handle_unauthorized_write_example =
    handle_unauthorized_write framework checks parse none count store sender arrival null write_doc
      no_ids 0 refl write_doc-write bad_proof

-- The resolver fails on the first call and answers on the next.
abbrev unpack : ℕ → Result AtmError ℕ × ℕ
unpack zero = (err (did_error "resolver down"), 1)
unpack (suc n) = (ok n, suc n)

retry_transient-Stops_example :
    Stops unpack (λ d w. w) 3 1000 200 1 0 (retry_transient unpack (λ d w. w) 3 1000 200 0)
retry_transient-Stops_example = retry_transient-Stops unpack (λ d w. w) 3 1000 200 0
