-- ===== src/Didcomm/Admin/Access.antt =====
-- Who may use the admin protocol, and what it writes into the audit log.
use trust_registry_build_pip.Base.{
  ℕ, String, true, false, ◌≡◌, ◌≢◌, refl, sym, ap, subst, ◌∙◌, arith, none, some, Result, ok, err,
  string_eq, List, [], ◌∷◌, contains, inl, inr, Option-cases, format, unwrap_or,
}
use trust_registry_build_pip.Domain.Json.{Value}
use trust_registry_build_pip.Storage.Repository.{Repository}
use trust_registry_build_pip.Audit.{
  AuditLog, AuditStatus, AuditOperation, AuditResource, success, failure, unauthorized,
}
use trust_registry_build_pip.Didcomm.ProblemReport
use trust_registry_build_pip.Didcomm.Admin.Messages.{
  Requests, handle_create_record, handle_update_record, handle_delete_record, handle_read_record,
  handle_list_records,
}
use trust_registry_build_pip.Didcomm.Admin.{
  HandlerContext, Content, response, problem, World, validate_admin_did,
  get_operation_from_message_type, get_supported_inbound_message_types, handle_success,
  handle_failure, handle_unauthorized, create_record_message_type, update_record_message_type,
  delete_record_message_type, read_record_message_type, list_records_message_type,
  extract_audit_resource, run, finish, handle_request, handle,
}

-- The second world has one more audit entry, by the sender and for the message's operation, and one
-- more message, to the sender.
pub record Answered {S : Type 0} (ctx : HandlerContext) (message_type : String)
    (status_ : AuditStatus) (content_ : Content) (w w' : World S) : Type 0 where
  pub entry : AuditLog
  pub audits : w'.audits ≡ entry ∷ w.audits
  pub actor : entry.actor ≡ ctx.sender_did
  pub operation : entry.operation ≡ get_operation_from_message_type message_type
  pub status : entry.status ≡ status_
  pub sent :
      w'.sent
      ≡ record {
        recipient = ctx.sender_did;
        thid = ctx.thid;
        pthid = ctx.pthid;
        content = content_;
      }
        ∷ w.sent

abbrev pub denied : HandlerContext → String
denied ctx = format ("Unauthorized: DID " ∷ ctx.sender_did ∷ " is not in admin list" ∷ [])

unauthorized-Answered :
    {S : Type 0} (ctx : HandlerContext) (now : ℕ) (message_type : String) (w : World S)
    → Answered ctx message_type unauthorized
        (problem (ProblemReport.unauthorized (denied ctx)))
        w
        (handle_unauthorized ctx now (denied ctx) message_type w)
unfolding handle_unauthorized
unauthorized-Answered ctx now message_type w = record {
  entry = _;
  audits = refl;
  actor = refl;
  operation = refl;
  status = refl;
  sent = refl;
}

success-Answered :
    {S : Type 0} (ctx : HandlerContext) (now : ℕ) (message_type response_type : String)
    (body response_body : Value) (s : S) (w : World S)
    → Answered ctx message_type success (response response_type response_body) w (
        handle_success ctx now response_type response_body
          (get_operation_from_message_type message_type)
          (extract_audit_resource body)
          (record w { store = s }))
unfolding handle_success
success-Answered ctx now message_type response_type body response_body s w = record {
  entry = _;
  audits = refl;
  actor = refl;
  operation = refl;
  status = refl;
  sent = refl;
}

failure-Answered :
    {S : Type 0} (ctx : HandlerContext) (now : ℕ) (message_type error_msg : String) (body : Value)
    (s : S) (w : World S)
    → Answered ctx message_type failure (problem (ProblemReport.internal_error error_msg)) w (
        handle_failure ctx now error_msg
          (get_operation_from_message_type message_type)
          (extract_audit_resource body)
          (record w { store = s }))
unfolding handle_failure
failure-Answered ctx now message_type error_msg body s w = record {
  entry = _;
  audits = refl;
  actor = refl;
  operation = refl;
  status = refl;
  sent = refl;
}

unauthorized_store :
    {S : Type 0} (ctx : HandlerContext) (now : ℕ) (e message_type : String) (w : World S)
    → (handle_unauthorized ctx now e message_type w).store ≡ w.store
unfolding handle_unauthorized
unauthorized_store ctx now e message_type w = refl

success_store :
    {S : Type 0} (ctx : HandlerContext) (now : ℕ) (t : String) (v : Value) (o : AuditOperation)
    (r : AuditResource) (w : World S)
    → (handle_success ctx now t v o r w).store ≡ w.store
unfolding handle_success
success_store ctx now t v o r w = refl

failure_store :
    {S : Type 0} (ctx : HandlerContext) (now : ℕ) (e : String) (o : AuditOperation)
    (r : AuditResource) (w : World S)
    → (handle_failure ctx now e o r w).store ≡ w.store
unfolding handle_failure
failure_store ctx now e o r w = refl

module _ (R : Repository) (Q : Requests) (ctx : HandlerContext) (now : ℕ) (admin_dids : List String)
    (message_type : String) (body : Value) (w : World R.Store) where
  abbrev pub after : World R.Store
  after = handle R Q admin_dids ctx now message_type body w

  refused :
      contains admin_dids ctx.sender_did ≡ false
      → after ≡ handle_unauthorized ctx now (denied ctx) message_type w
  unfolding handle validate_admin_did
  refused h = ground arith

  admitted :
      contains admin_dids ctx.sender_did ≡ true
      → after ≡ finish R Q ctx now message_type body (run R Q message_type body w.store) w
  unfolding handle validate_admin_did handle_request
  admitted h = ground arith

  -- A message of a sender that is no admin leaves the records as they are; it is audited as
  -- unauthorized and answered with an unauthorized problem report.
  pub handle_denied :
      contains admin_dids ctx.sender_did ≡ false
      → (after.store ≡ w.store)
        × Answered ctx message_type unauthorized
            (problem (ProblemReport.unauthorized (denied ctx)))
            w
            after
  handle_denied h =
      subst
        (λ (x : World R.Store).
          (x.store ≡ w.store)
          × Answered ctx message_type unauthorized
              (problem (ProblemReport.unauthorized (denied ctx))) w x)
        (sym (refused h))
        (
          unauthorized_store ctx now (denied ctx) message_type w,
          unauthorized-Answered ctx now message_type w,
        )

  -- Whether the outcome of an operation is an answer or an error, the audit entry and the message
  -- that goes out say so.
  abbrev pub Reported : Result String Value → String → World R.Store → Type 0
  Reported (ok v) response_type w' =
      Answered ctx message_type success (response response_type v) w w'
  Reported (err e) response_type w' =
      Answered ctx message_type failure (problem (ProblemReport.internal_error e)) w w'

  finish-Reported :
      (response_type : String) (outcome : Result String Value) (s : R.Store)
      → let w' = finish R Q ctx now message_type body (some (response_type, (outcome, s))) w in
        (w'.store ≡ s) × Reported outcome response_type w'
  finish-Reported response_type (ok v) s = (
    success_store ctx now response_type v _ _ (record w { store = s }),
    success-Answered ctx now message_type response_type body v s w,
  )
  finish-Reported response_type (err e) s = (
    failure_store ctx now e _ _ (record w { store = s }),
    failure-Answered ctx now message_type e body s w,
  )

  run_known :
      contains get_supported_inbound_message_types message_type ≡ true
      → run R Q message_type body w.store ≢ none
  unfolding run
  run_known h e = ground arith

  run_supported :
      contains get_supported_inbound_message_types message_type ≡ true
      → (x : String × (Result String Value × R.Store)) × (run R Q message_type body w.store
          ≡ some x)
  run_supported h = elim (Option-cases (run R Q message_type body w.store)) [
    | inl unknown ↦ absurd (run_known h unknown)
    | inr found ↦ found
  ]

  -- What carrying the message out gives: the response type and the outcome with the records, by the
  -- operation that the type of the message names.
  abbrev pub Performed : String × (Result String Value × R.Store) → Type 0
  Performed x =
      (message_type ≡ create_record_message_type
        → x ≡ (
          "https://affinidi.com/didcomm/protocols/tr-admin/1.0/create-record/response",
          handle_create_record R Q body w.store,
        ))
      × (message_type ≡ update_record_message_type
          → x ≡ (
            "https://affinidi.com/didcomm/protocols/tr-admin/1.0/update-record/response",
            handle_update_record R Q body w.store,
          ))
      × (message_type ≡ delete_record_message_type
          → x ≡ (
            "https://affinidi.com/didcomm/protocols/tr-admin/1.0/delete-record/response",
            handle_delete_record R Q body w.store,
          ))
      × (message_type ≡ read_record_message_type
          → x ≡ (
            "https://affinidi.com/didcomm/protocols/tr-admin/1.0/read-record/response",
            handle_read_record R Q body w.store,
          ))
      × (message_type ≡ list_records_message_type
          → x ≡ (
            "https://affinidi.com/didcomm/protocols/tr-admin/1.0/list-records/response",
            handle_list_records R Q w.store,
          ))

  ran_as :
      (x y : String × (Result String Value × R.Store)) (t : String)
      → run R Q message_type body w.store ≡ some x
      → run R Q t body w.store ≡ some y
      → message_type ≡ t
      → x ≡ y
  ran_as x y t ran named e =
      ap (λ o. unwrap_or o x) (sym ran ∙ ap (λ t. run R Q t body w.store) e ∙ named)

  run-Performed :
      (x : String × (Result String Value × R.Store))
      → run R Q message_type body w.store ≡ some x
      → Performed x
  unfolding run
  run-Performed x ran = (
    ran_as x _ create_record_message_type ran refl,
    ran_as x _ update_record_message_type ran refl,
    ran_as x _ delete_record_message_type ran refl,
    ran_as x _ read_record_message_type ran refl,
    ran_as x _ list_records_message_type ran refl,
  )

  -- A message of an admin of a supported type is carried out: each of the five types by its operation,
  -- with its response type. The records are those that the operation leaves, and there is exactly one
  -- audit entry and one message to the sender, a success with the response or a failure with a problem
  -- report as the outcome of the operation says.
  pub handle_admitted :
      contains admin_dids ctx.sender_did ≡ true
      → contains get_supported_inbound_message_types message_type ≡ true
      → (response_type : String) × (outcome : Result String Value) × (s : R.Store) × Performed
          (response_type, (outcome, s))
        × (after.store ≡ s)
        × Reported outcome response_type after
  handle_admitted admin supported =
      let ((response_type, (outcome, s)), ran) = run_supported supported in
      let eq : after ≡ finish R Q ctx now message_type body (some (response_type, (outcome, s))) w =
        admitted admin ∙ ap (λ o. finish R Q ctx now message_type body o w) ran in
      let done = finish-Reported response_type outcome s in
      (
        response_type,
        outcome,
        s,
        run-Performed (response_type, (outcome, s)) ran,
        subst (λ (x : World R.Store). x.store ≡ s) (sym eq) done.0,
        subst (Reported outcome response_type) (sym eq) done.1,
      )
