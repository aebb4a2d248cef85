-- ===== src/Tests/Frames.antt =====
-- Inbound frames and messages at concrete values.
use trust_registry_build_pip.Base.{
  ℕ, zero, suc, ◌<◌, String, true, some, Result, ok, err, [], ◌∷◌, ◌≡◌, refl, arith, string_eq,
}
use trust_registry_build_pip.Domain.Json.{Value, null, string, object, field, end, lookup}
use trust_registry_build_pip.TrustTasks.Framework.{Handler}
use trust_registry_build_pip.TrustTasks.Gate.{Checks}
use trust_registry_build_pip.Dedup.{MessageIdStore, MemoryMessageIdStore, memory}
use trust_registry_build_pip.Tsp.{
  AtmError, did_error, is_transient_unpack_error, Codec, parse_envelope, build_envelope,
  handle_inbound, process_tsp_frame,
}
use trust_registry_build_pip.Tsp.Retry.{transient, before}
use trust_registry_build_pip.Tsp.Frame.{attempt, process_tsp_frame-recovers}
use trust_registry_build_pip.Tests.Fixtures.{Doc, framework, write_doc}

abbrev codec : Codec framework
codec = record {
  Bytes = Value;
  envelope_type = "tsp";
  from_slice = ok;
  from_value = λ v. ok write_doc;
  to_vec = λ v. v;
  to_value = λ o. null;
  debug_type = λ t. "";
}

abbrev checks : Checks framework
checks = record {
  resolve_parties = λ my sender d. ok tt;
  validate_basic = λ now my d. ok tt;
  verify_json = λ d. ok tt;
}

-- The world counts the documents that were handled.
abbrev count : Doc → Handler framework ℕ
count doc w = (ok doc, suc w)

abbrev store : MessageIdStore framework
store = memory framework (λ d. some d)

abbrev no_ids : MemoryMessageIdStore framework
no_ids = record { ttl = 60; in_flight_ttl = 10; entries = [] }

abbrev frame : Value
frame = object (field "type" (string "tsp") (field "document" null end))

-- The resolver fails on the first call and answers on the next.
abbrev unpack : ℕ → Result AtmError (Value × String) × ℕ
unpack zero = (err (did_error "resolver down"), 1)
unpack (suc n) = (ok (frame, "did:b"), suc n)

abbrev send : String → Value → ℕ → Result String (Unit {0}) × ℕ
send sender_did reply n = (ok tt, n)

first_fails : (m : ℕ) → m < 1 → transient (attempt unpack (λ d n. n) m 0).0 ≡ true
unfolding before is_transient_unpack_error
first_fails zero lt = refl
first_fails (suc m) lt = absurd (omega arith)

frame-parsed : parse_envelope framework codec frame ≡ ok write_doc
unfolding parse_envelope lookup
frame-parsed = refl

process_tsp_frame-recovers_example :
    let (outcome, s, w) =
      handle_inbound framework codec checks count store
        ("did:b" ∷ [])
        "did:me"
        5
        6
        7
        "x"
        "did:b"
        write_doc
        (no_ids, 0) in
    process_tsp_frame framework codec checks count store
      ("did:b" ∷ [])
      "did:me"
      unpack
      (λ d n. n)
      send
      5
      6
      7
      "x"
      0
      (no_ids, 0)
    ≡ some ((send "did:b" (build_envelope framework codec outcome) 1).1, (s, w))
unfolding before
process_tsp_frame-recovers_example =
    process_tsp_frame-recovers framework codec checks count store ("did:b" ∷ []) "did:me" unpack
      (λ d n. n) send 5 6 7 "x" 0 (no_ids, 0) 1 frame "did:b" write_doc (omega arith) first_fails
      refl frame-parsed
