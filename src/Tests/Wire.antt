-- ===== src/Tests/Wire.antt =====
-- A framework whose documents are the client's, with payloads that are arrays of their members, and a
-- dispatcher that runs the first handler of a type.
use trust_registry_build_pip.Base.{
  String, Bool, true, false, ◌≡◌, ◌≢◌, refl, sym, ap, ◌∙◌, arith, none, some, Result, ok, err, List,
  [], ◌∷◌, if◌then◌else◌, ◌==◌, string_eq, Bool-cases, inl, inr,
}
use text.Mathlib.TextEquality.{eq_iff}
use trust_registry_build_pip.Domain.Json.{Value, null}
use trust_registry_build_pip.Storage.KeyValue.{Held}
use trust_registry_build_pip.Storage.Local.{LocalStorage}
use trust_registry_build_pip.TrustTasks.Framework.{
  Framework, Handler, default_retryable, internal_error, malformed_request,
}
use trust_registry_build_pip.TrustTasks.Router.Dispatch.{Payloads, Entry, Dispatching}
use trust_registry_build_pip.Client.Query.{Crate, TrustTask, QueryRequest, error_slug}
use trust_registry_build_pip.Client.Query.Registry.{key_of, Wire}
use trust_registry_build_pip.Tests.Payloads.{
  key_value, key_payload, key-round, response_value, parse_response, response-round, serializers,
}

abbrev pub framework : Framework
framework = record {
  Document = TrustTask;
  ErrorResponse = Bool × String;
  id = λ d. d.id;
  issuer = λ d. d.issuer;
  slug = λ d. "registry";
  has_proof = λ d. false;
  respond_with = λ d fresh v. record d { id = fresh; thread_id = some d.id; payload = v };
  reject_with = λ d fresh reason. (default_retryable reason, fresh);
  retryable = λ e. e.0;
  with_retryable = λ e flag. (flag, e.1);
  retryable-with_retryable = λ e flag i. flag;
  retryable-reject_with = λ d fresh reason i. default_retryable reason;
}

pub apart : (a : String) → a ≡ "recognition" → a ≢ "authorization"
apart a e f = ground (arith, (eq_iff "recognition" "authorization").1 (sym e ∙ f))

abbrev pub payloads : Payloads framework serializers
payloads = record {
  type_uri = λ d. d.type_uri;
  recognition = "recognition";
  authorization = "authorization";
  record_create = "record/create";
  record_update = "record/update";
  record_delete = "record/delete";
  record_read = "record/read";
  record_list = "record/list";
  apart = apart "recognition" refl;
  key_payload = λ t d. key_payload d.payload;
  write_payload = λ t d. err "none";
  list_payload = λ d. ok tt;
}

-- The handler of the first entry whose type is that of the document.
abbrev pub made :
    Result String (Handler framework LocalStorage)
    → TrustTask
    → String
    → Result (Bool × String) (Handler framework LocalStorage)
made (ok h) d id = ok h
made (err e) d id = err (framework.reject_with d id (malformed_request e))

abbrev pub dispatch :
    List (Entry framework LocalStorage)
    → TrustTask
    → String
    → Result (Bool × String) (Handler framework LocalStorage)
dispatch [] d id = err (framework.reject_with d id (internal_error "unsupported"))
dispatch ((t, handler) ∷ entries) d id =
    let rest = dispatch entries d id in if t == d.type_uri then made (handler d) d id else rest

abbrev pub back :
    Result (Bool × String) (Handler framework LocalStorage)
    → Result String (Handler framework LocalStorage)
back (ok h) = ok h
back (err e) = err ""

pub made-picks :
    (o : Result String (Handler framework LocalStorage)) (d : TrustTask) (id : String)
    (h : Handler framework LocalStorage)
    → made o d id ≡ ok h
    → o ≡ ok h
made-picks (ok k) d id h e = ap back e
made-picks (err x) d id h e = ground (arith, e)

pub dispatch-picks :
    (entries : List (Entry framework LocalStorage)) (d : TrustTask) (id : String)
    (h : Handler framework LocalStorage)
    → dispatch entries d id ≡ ok h
    → (entry : Entry framework LocalStorage) × Held entry entries × (entry.1 d ≡ ok h)
dispatch-picks [] d id h e = ground (arith, e)
dispatch-picks ((t, handler) ∷ entries) d id h e = elim (Bool-cases (t == d.type_uri)) [
  | inl same ↦ ((t, handler), inl refl, made-picks (handler d) d id h (rw same at e))
  | inr other ↦
      let later = dispatch-picks entries d id h (rw other at e) in (later.0, inr later.1, later.2)
]

pub dispatch-finds :
    (entries : List (Entry framework LocalStorage)) (d : TrustTask) (id : String)
    (entry : Entry framework LocalStorage) (h : Handler framework LocalStorage)
    → Held entry entries
    → ((other : Entry framework LocalStorage)
        → Held other entries
        → other.0 ≡ entry.0
        → other ≡ entry)
    → entry.0 ≡ d.type_uri
    → entry.1 d ≡ ok h
    → dispatch entries d id ≡ ok h
dispatch-finds [] d id entry h held only typed parsed = absurd held
dispatch-finds ((t, handler) ∷ entries) d id entry h held only typed parsed =
    elim (Bool-cases (t == d.type_uri)) [
      | inl same ↦
          let first = only (t, handler) (inl refl) ((eq_iff t d.type_uri).0 same ∙ sym typed) in
          rw same (
            ap (λ o. made o d id) (ap (λ (x : Entry framework LocalStorage). x.1 d) first ∙ parsed))
      | inr other ↦ rw other (elim held [
        | inl first ↦ absurd (
            ground (
              arith,
              other,
              (eq_iff t d.type_uri).1
                  (ap (λ (x : Entry framework LocalStorage). x.0) first ∙ typed),
            ))
        | inr more ↦
            dispatch-finds entries d id entry h more (λ o o_held same. only o (inr o_held) same)
              typed parsed
      ])
    ]

abbrev pub dispatching : Dispatching framework LocalStorage (λ d. d.type_uri)
dispatching = record {
  dispatch_or_reject = dispatch;
  picks = dispatch-picks;
  finds = dispatch-finds;
}

abbrev pub crate : Crate
crate = record {
  new = λ id uri v. record {
    id = id;
    type_uri = uri;
    payload = v;
    thread_id = none;
    issuer = none;
    recipient = none;
    issued_at = none;
  };
  slug = λ uri. "registry";
  is_response = λ uri. true;
  parse_error = λ v. err "payload";
  debug = λ o. "";
}

pub registry-apart : crate.slug "authorization" ≢ error_slug
registry-apart e = ground (arith, (eq_iff "registry" error_slug).1 e)

pub request_read :
    (q : QueryRequest) (d : TrustTask)
    → ◌≡◌ {A = Result String Value} (ok (key_value (key_of q))) (ok d.payload)
    → key_payload d.payload ≡ ok (key_of q)
request_read q d e =
    let same : d.payload ≡ key_value (key_of q) = ground (arith, e) in
    ap key_payload same ∙ key-round (key_of q)

abbrev pub wire : Wire crate framework serializers payloads
wire = record {
  inbound = λ d. d;
  outbound = λ d. d;
  outbound_error = λ e. crate.new e.1 "trust-task-error" null;
  request_to_value = λ q. ok (key_value (key_of q));
  parse_response = parse_response;
  new_type = λ id uri v. refl;
  new_id = λ id uri v. refl;
  inbound_type = λ d. refl;
  response_thread = λ d fresh v. refl;
  response_payload = λ d fresh v. refl;
  response_slug = λ d fresh v. refl;
  response_type = λ d fresh v. refl;
  authorization_slug = registry-apart;
  request_value = λ q. (key_value (key_of q), refl);
  request_read = request_read;
  new_payload = λ id uri v. refl;
  response_value = λ a. (response_value a, refl, response-round a);
}
