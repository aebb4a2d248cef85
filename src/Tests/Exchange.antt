-- ===== src/Tests/Exchange.antt =====
-- Exchanges over a mediator and over HTTPS, and an envelope that the registry reads.
use trust_registry_build_pip.Base.{
  ℕ, String, true, false, ◌≡◌, ◌≢◌, ◌↔◌, refl, ap, arith, Option, none, some, Result, ok, err, [],
  ◌∷◌, ◌++◌, string_eq,
}
use trust_registry_build_pip.Base.HashMap
use trust_registry_build_pip.Base.Strings.{codes}
use trust_registry_build_pip.Domain.Json.{Value, null, string}
use trust_registry_build_pip.Client.Error.{contract, is_retryable}
use trust_registry_build_pip.Client.Pending.{new}
use trust_registry_build_pip.Client.Query.{TrustTask}
use trust_registry_build_pip.Client.Https
use trust_registry_build_pip.Client.Https.{Response, SendError, is_success, exchange-is_retryable}
use trust_registry_build_pip.Client.Exchange.{Pending, Binding, elapsed, exchange, thread_of}
use trust_registry_build_pip.Client.Exchange.Waiting.{new-IsSound}
use trust_registry_build_pip.Client.Exchange.Delivery.{Settled, exchange-reply, exchange-Settled}
use trust_registry_build_pip.Client.Tsp
use trust_registry_build_pip.Client.Tsp.{build_envelope}
use trust_registry_build_pip.Client.Tsp.Served.{parse_envelope-served}
use trust_registry_build_pip.Tsp.{Codec, parse_envelope}
use trust_registry_build_pip.Tests.Wire.{framework}
use trust_registry_build_pip.Client.Didcomm.{Message, Polled, message, nothing, Library, binding}

abbrev task : String → Option String → TrustTask
task id thread = record {
  id = id;
  type_uri = "authorization";
  payload = null;
  thread_id = thread;
  issuer = none;
  recipient = some "did:r";
  issued_at = none;
}

-- A library in which the body of a message is the thread of its document.
abbrev read_thread : Value → Result String TrustTask
read_thread (string thread) = ok (task "reply" (some thread))
read_thread _ = err "no document"

abbrev library : Library
library = record {
  Packed = Message;
  envelope_type = "envelope";
  to_value = λ t. ok (string t.id);
  from_value = read_thread;
  pack_encrypted = λ m to from. ok m;
  forward_and_send = λ m id mediator dest. ok tt;
  my_did = "did:c";
  mediator = some "did:m";
}

abbrev over : Binding
over = binding library "e1"

abbrev envelope : String → Polled
envelope thread =
    message
      (record {
        id = "m";
        typ = "envelope";
        body = string thread;
        from = "did:r";
        to = "did:c";
        thid = thread;
      })
      "hash"

abbrev idle : Pending
idle = new thread_of

abbrev nine : String
nine = "urn:9"

abbrev one : String
one = "urn:1"

apart : nine ≢ one
apart e = ground (arith, ap codes e)

thread_apart : (d : TrustTask) → task "reply" (some nine) ≡ d → d.thread_id ≢ some one
thread_apart d e own = apart (cc (e, own))

exchange-reply_example :
    (exchange over 60 []
      (task "urn:1" none)
      elapsed
      ((envelope "urn:9" ∷ nothing ∷ []) ++ envelope "urn:1" ∷ [])
      idle).0
    ≡ ok (task "reply" (some "urn:1"))
exchange-reply_example =
    exchange-reply over 60 [] (task "urn:1" none) "did:r" (string "urn:1") elapsed
      (envelope "urn:9" ∷ nothing ∷ []) (envelope "urn:1") [] (task "reply" (some "urn:1")) idle
      refl (new-IsSound thread_of) refl refl refl
      (λ d e. thread_apart d (cc e), (λ d e. ground (arith, e), tt)) refl refl

exchange-Settled_example :
    Settled over 60 [] "urn:1" (exchange over 60 [] (task "urn:1" none) elapsed (nothing ∷ []) idle)
unfolding HashMap.get
exchange-Settled_example =
    exchange-Settled over 60 [] (task "urn:1" none) elapsed (nothing ∷ []) idle refl
      (new-IsSound thread_of) refl

-- A page of success that is no document, and an error page.
abbrev no_document : String → Result String TrustTask
no_document body = err "no JSON"

abbrev page : ℕ → Response
page status = record { status = status; status_text = "OK"; bytes = ok "<html>" }

abbrev answered : Result SendError Response
answered = ok (page 200)

exchange-is_retryable_example :
    (is_retryable (contract "HTTP OK body is not a Trust Task document: no JSON") ≡ false) ↔ (
      (response : Response) × (body : String) × (reason : String) × (answered ≡ ok response)
      × (is_success response.status ≡ true)
      × (response.bytes ≡ ok body)
      × (no_document body ≡ err reason))
unfolding Https.exchange
exchange-is_retryable_example =
    exchange-is_retryable no_document "https://r/trust-tasks" 30 answered
      (contract "HTTP OK body is not a Trust Task document: no JSON") refl

-- Bytes are JSON values, and a document is written as its id.
abbrev read_id : Value → Result String TrustTask
read_id (string id) = ok (task id none)
read_id _ = err "no document"

abbrev client_library : Tsp.Library
client_library = record {
  Bytes = Value;
  Packed = Value;
  envelope_type = "tsp";
  to_value = λ t. ok (string t.id);
  from_value = read_id;
  to_vec = ok;
  from_slice = ok;
  debug = λ t. "";
  send = λ dest bytes. ok tt;
  unpack = λ packed. ok (packed, "did:r");
}

abbrev server_codec : Codec framework
server_codec = record {
  Bytes = Value;
  envelope_type = "tsp";
  from_slice = ok;
  from_value = read_id;
  to_vec = λ v. v;
  to_value = λ o. null;
  debug_type = λ t. "";
}

abbrev sealed : Value
sealed = Tsp.framed client_library (string "urn:1")

parse_envelope-served_example :
    parse_envelope framework server_codec sealed ≡ ok (task "urn:1" none)
unfolding build_envelope
parse_envelope-served_example =
    parse_envelope-served client_library framework server_codec (task "urn:1" none) (string "urn:1")
      sealed sealed (task "urn:1" none) refl refl refl (λ w e. cc e) refl
