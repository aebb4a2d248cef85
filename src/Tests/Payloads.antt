-- ===== src/Tests/Payloads.antt =====
-- Payloads of the registry's tasks as arrays of their members, and the serializers that write them.
use trust_registry_build_pip.Base.{
  ℕ, String, ◌≡◌, refl, ap, Option, none, some, Result, ok, err, string_eq,
}
use trust_registry_build_pip.Domain.Json.{Value, null, bool, number, string, array, nil, cons}
use trust_registry_build_pip.Domain.Record.{TrustRecord}
use trust_registry_build_pip.Storage.Repository.{TrustRecordList}
use trust_registry_build_pip.TrustTasks.Router.{KeyPayload, QueryResponse, Serializers}

abbrev pub time_value : Option ℕ → Value
time_value none = null
time_value (some t) = number t

abbrev pub time_of : Value → Option ℕ
time_of (number t) = some t
time_of _ = none

abbrev pub text_value : Option String → Value
text_value none = null
text_value (some t) = string t

abbrev pub text_of : Value → Option String
text_of (string t) = some t
text_of _ = none

abbrev pub option_value : Option Value → Value
option_value none = array nil
option_value (some v) = array (cons v nil)

abbrev pub option_of : Value → Option Value
option_of (array (cons v nil)) = some v
option_of _ = none

abbrev pub key_value : KeyPayload → Value
key_value p = array (
    cons (string p.entity_id) (
      cons (string p.authority_id)
        (cons (string p.action) (cons (string p.resource) (cons (time_value p.time) nil)))))

abbrev pub key_payload : Value → Result String KeyPayload
key_payload
      (array (cons (string e) (cons (string a) (cons (string x) (cons (string r) (cons t nil)))))) =
    ok (record { entity_id = e; authority_id = a; action = x; resource = r; time = time_of t })
key_payload _ = err "payload"

pub time-round : (o : Option ℕ) → time_of (time_value o) ≡ o
time-round none = refl
time-round (some t) = refl

pub key-round : (p : KeyPayload) → key_payload (key_value p) ≡ ok p
key-round p = ap (λ t. ok (record p { time = t })) (time-round p.time)

abbrev pub response_value : QueryResponse → Value
response_value a = array (
    cons (string a.entity_id) (
      cons (string a.authority_id) (
        cons (string a.action) (
          cons (string a.resource) (
            cons (bool a.answer) (
              cons (number a.time_evaluated) (
                cons (time_value a.time_requested) (
                  cons (option_value a.context)
                    (cons (option_value a.ext) (cons (text_value a.message) nil))))))))))

abbrev pub parse_response : Value → Result String QueryResponse
parse_response
      (array (
        cons (string e) (
          cons (string a) (
            cons (string x) (
              cons
                (string r)
                (cons (bool b) (cons (number t) (cons q (cons c (cons y (cons m nil))))))))))) =
    ok (record {
      entity_id = e;
      authority_id = a;
      action = x;
      resource = r;
      answer = b;
      time_evaluated = t;
      time_requested = time_of q;
      context = option_of c;
      ext = option_of y;
      message = text_of m;
    })
parse_response _ = err "response"

pub option-round : (o : Option Value) → option_of (option_value o) ≡ o
option-round none = refl
option-round (some v) = refl

pub text-round : (o : Option String) → text_of (text_value o) ≡ o
text-round none = refl
text-round (some v) = refl

pub response-round : (a : QueryResponse) → parse_response (response_value a) ≡ ok a
response-round a =
    cc (
      time-round a.time_requested,
      option-round a.context,
      option-round a.ext,
      text-round a.message,
    )

abbrev pub serializers : Serializers
serializers = record {
  recognition_to_value = λ r. ok (response_value r);
  authorization_to_value = λ r. ok (response_value r);
  write_to_value = λ r. ok (bool r.is_ok);
  SpecRecord = TrustRecord;
  from_spec = λ r. ok r;
  ReadResponse = TrustRecord;
  to_read_response = λ r. ok r;
  read_to_value = λ r. ok null;
  ListResponse = TrustRecordList;
  to_list_response = λ l. ok l;
  list_to_value = λ l. ok null;
}
