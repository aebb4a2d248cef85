-- ===== src/Tsp.antt =====
-- trust-registry/src/tsp/mod.rs: Trust Tasks over TSP. The messaging library is a parameter: `unpack`,
-- `sleep` and `send` act on a world. `AtmError` has the variants of the library's error that the code
-- names, and one for the others.
pub mod Retry
pub mod Frame
pub mod Access
use text.Mathlib.Text.{◌==◌ as text_eq}
use trust_registry_build_pip.Base.{
  ℕ, suc, zero, ◌+◌, ◌*◌, leb, String, Bool, true, false, not, ◌||◌, Option, none, some, Result, ok,
  err, map_err, ok_or, ◌>>=◌, if◌then◌else◌, List, [], ◌∷◌, format,
}
use trust_registry_build_pip.Domain.Json.{Value, string, object, lookup, field, end}
use trust_registry_build_pip.TrustTasks.Framework.{Framework, TaskOutcome, Handler}
use trust_registry_build_pip.TrustTasks.Gate.{Checks, gate}
use trust_registry_build_pip.Dedup.{MessageIdStore, dispatch_idempotent}

-- durations in milliseconds
abbrev pub unpack_max_attempts : ℕ
unpack_max_attempts = 3

abbrev pub unpack_initial_backoff : ℕ
unpack_initial_backoff = 200

abbrev pub unpack_max_backoff : ℕ
unpack_max_backoff = 1000

pub data AtmError : Type 0 where
  did_error transport_error disconnected tdk_error msg_receive_error secrets_error other :
      String → AtmError

unfoldable pub is_transient_unpack_error : AtmError → Bool
is_transient_unpack_error (did_error m) = true
is_transient_unpack_error (transport_error m) = true
is_transient_unpack_error (disconnected m) = true
is_transient_unpack_error (tdk_error m) = true
is_transient_unpack_error _ = false

abbrev pub min : ℕ → ℕ → ℕ
min a b = if leb a b then a else b

module _ {T W : Type 0} (op : W → Result AtmError T × W) (sleep : ℕ → W → W)
    (attempts max_backoff : ℕ) where
  -- One round of the loop, for each unit of fuel.
  unfoldable pub retry_from : ℕ → ℕ → ℕ → W → Option (Result AtmError T × W)
  retry_from zero backoff attempt w = none
  retry_from (suc fuel) backoff attempt w =
      let (outcome, w') = op w in
      elim outcome [
        | ok value ↦ some (ok value, w')
        | err e ↦ elim (leb attempts attempt || not (is_transient_unpack_error e)) [
          | true ↦ some (err e, w')
          | false ↦ retry_from fuel (min (backoff * 2) max_backoff) (attempt + 1) (sleep backoff w')
        ]
      ]

  unfoldable pub retry_transient : ℕ → W → Option (Result AtmError T × W)
  retry_transient initial_backoff w = retry_from (suc attempts) initial_backoff 1 w

-- `serde_json::from_slice` and `from_value` into a document are parameters, and so is the encoding of
-- a reply.
pub record Codec (F : Framework) : Type 1 where
  pub Bytes : Type 0
  pub envelope_type : String
  pub from_slice : Bytes → Result String Value
  pub from_value : Value → Result String F.Document
  pub to_vec : Value → Bytes
  pub to_value : TaskOutcome F → Value
  pub debug_type : Option String → String

module _ (F : Framework) (codec : Codec F) where
  open codec use {Bytes}

  abbrev member : Value → String → Option Value
  member (object m) k = lookup m k
  member _ k = none

  abbrev as_str : Option Value → Option String
  as_str (some (string s)) = some s
  as_str _ = none

  abbrev check_type : Option String → Result String (Unit {0})
  check_type (some t) =
      if text_eq t codec.envelope_type
      then ok tt
      else err (format ("unexpected TSP envelope type: " ∷ codec.debug_type (some t) ∷ []))
  check_type none = err (format ("unexpected TSP envelope type: " ∷ codec.debug_type none ∷ []))

  unfoldable pub parse_envelope : Bytes → Result String F.Document
  unfolding lookup
  parse_envelope payload = do
    envelope ←
        map_err (λ e. format ("invalid TSP envelope JSON: " ∷ e ∷ [])) (codec.from_slice payload)
    _ ← check_type (as_str (member envelope "type"))
    document ← ok_or (member envelope "document") "TSP envelope missing `document`"
    map_err (λ e. format ("invalid Trust Task document: " ∷ e ∷ [])) (codec.from_value document)

  unfoldable pub build_envelope : TaskOutcome F → Bytes
  build_envelope outcome = codec.to_vec (
      object
        (field "type" (string codec.envelope_type) (field "document" (codec.to_value outcome) end)))

  module _ (checks : Checks F) {W : Type 0} (dispatch : F.Document → Handler F W)
      (store : MessageIdStore F) (admin_dids : List String) (my_vid : String) where
    abbrev State : Type 0
    State = store.State × W

    abbrev pub admit :
        ℕ
        → ℕ
        → String
        → F.Document
        → Result F.ErrorResponse (Unit {0})
        → store.State × W
        → TaskOutcome F × store.State × W
    admit claimed_at resolved_at fresh doc (err e) (s, w) = (err e, s, w)
    admit claimed_at resolved_at fresh doc (ok _) sw =
        dispatch_idempotent F dispatch store claimed_at resolved_at fresh doc sw

    -- The reply, before it is put into its envelope.
    unfoldable pub handle_inbound :
        ℕ → ℕ → ℕ → String → String → F.Document → store.State × W → TaskOutcome F × store.State × W
    handle_inbound now claimed_at resolved_at fresh sender_did doc sw =
        admit claimed_at resolved_at fresh doc
          (gate F checks admin_dids my_vid sender_did now fresh doc) sw

    abbrev pub answer :
        ℕ
        → ℕ
        → ℕ
        → String
        → String
        → Result String F.Document
        → State
        → Option (String × Bytes) × State
    answer now claimed_at resolved_at fresh sender_did (err e) sw = (none, sw)
    answer now claimed_at resolved_at fresh sender_did (ok doc) sw =
        let (outcome, s, w) = handle_inbound now claimed_at resolved_at fresh sender_did doc sw in
        (some (sender_did, build_envelope outcome), (s, w))

    -- What is sent, and to whom, once the frame has been unpacked or not.
    unfoldable pub process_unpacked :
        ℕ
        → ℕ
        → ℕ
        → String
        → Result AtmError (Bytes × String)
        → State
        → Option (String × Bytes) × State
    process_unpacked now claimed_at resolved_at fresh (err e) sw = (none, sw)
    process_unpacked now claimed_at resolved_at fresh (ok (payload, sender_did)) sw =
        answer now claimed_at resolved_at fresh sender_did (parse_envelope payload) sw

    module _ {N : Type 0} (unpack : N → Result AtmError (Bytes × String) × N) (sleep : ℕ → N → N)
        (send : String → Bytes → N → Result String (Unit {0}) × N) where
      -- That a reply cannot be sent is logged.
      abbrev pub sent : Option (String × Bytes) → N → N
      sent none n = n
      sent (some (sender_did, reply)) n = (send sender_did reply n).1

      abbrev pub processed :
          ℕ
          → ℕ
          → ℕ
          → String
          → Option (Result AtmError (Bytes × String) × N)
          → State
          → Option (N × State)
      processed now claimed_at resolved_at fresh none sw = none
      processed now claimed_at resolved_at fresh (some (unpacked, n)) sw =
          let (reply, sw') = process_unpacked now claimed_at resolved_at fresh unpacked sw in
          some (sent reply n, sw')

      -- A frame, from its unpacking in the world of the messaging library to the reply.
      unfoldable pub process_tsp_frame : ℕ → ℕ → ℕ → String → N → State → Option (N × State)
      process_tsp_frame now claimed_at resolved_at fresh n sw =
          processed now claimed_at resolved_at fresh
            (retry_transient unpack sleep unpack_max_attempts unpack_max_backoff
              unpack_initial_backoff n)
            sw
