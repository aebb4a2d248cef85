-- ===== src/Client/Tsp.antt =====
-- trql-client/src/tsp.rs: the exchange over TSP, its envelope, and the loop that demultiplexes replies.
-- The messaging library and JSON are parameters.
pub mod Served
use trust_registry_build_pip.Base.{
  ℕ, String, Bool, true, false, Option, none, some, Result, ok, err, map_err, ◌>>=◌, ok_or,
  if◌then◌else◌, List, [], ◌∷◌, format, ◌≡◌, refl, sym, ap, ◌∙◌, arith, ◌==◌, string_eq,
}
use text.Mathlib.TextEquality.{eq_iff}
use trust_registry_build_pip.Domain.Json.{Value, string, object, lookup, field, end}
use trust_registry_build_pip.Client.Error.{TransportKind, tsp, TrqlError, contract, transport}
use trust_registry_build_pip.Client.Pending.{route}
use trust_registry_build_pip.Client.Query.{TrustTask}
use trust_registry_build_pip.Client.Exchange.{Pending, Binding, thread_of, routed}

-- What a poll of the pickup stream gives; other frames are not this binding's.
pub data Polled (Packed : Type 0) : Type 0 where
  frame : Packed → Polled Packed
  other_frame nothing : Polled Packed
  failed : String → Polled Packed

-- What the transport uses of the libraries.
pub record Library : Type 1 where
  pub Bytes : Type 0
  pub Packed : Type 0
  pub envelope_type : String
  pub to_value : TrustTask → Result String Value
  pub from_value : Value → Result String TrustTask
  pub to_vec : Value → Result String Bytes
  pub from_slice : Bytes → Result String Value
  pub debug : Option String → String
  pub send : String → Bytes → Result String (Unit {0})
  pub unpack : Packed → Result String (Bytes × String)

module _ (L : Library) where
  open L use {Bytes, Packed}

  abbrev pub framed : Value → Value
  framed document = object (field "type" (string L.envelope_type) (field "document" document end))

  abbrev pub written : Result String Value → Result TrqlError Bytes
  written (err e) = err (contract (format ("request did not serialize: " ∷ e ∷ [])))
  written (ok document) =
      map_err (λ e. contract (format ("envelope did not serialize: " ∷ e ∷ [])))
        (L.to_vec (framed document))

  unfoldable pub build_envelope : TrustTask → Result TrqlError Bytes
  build_envelope document = written (L.to_value document)

  abbrev pub member : Value → String → Option Value
  member (object m) k = lookup m k
  member _ k = none

  abbrev pub as_str : Option Value → Option String
  as_str (some (string s)) = some s
  as_str _ = none

  abbrev pub check_type : Option String → Result String (Unit {0})
  check_type (some t) =
      if t == L.envelope_type
      then ok tt
      else err (format ("unexpected TSP envelope type: " ∷ L.debug (some t) ∷ []))
  check_type none = err (format ("unexpected TSP envelope type: " ∷ L.debug none ∷ []))

  unfoldable pub parse_envelope : Bytes → Result String TrustTask
  unfolding lookup
  parse_envelope payload = do
    envelope ← map_err (λ e. format ("invalid TSP envelope JSON: " ∷ e ∷ [])) (L.from_slice payload)
    _ ← check_type (as_str (member envelope "type"))
    document ← ok_or (member envelope "document") "TSP envelope missing `document`"
    map_err (λ e. format ("invalid Trust Task document: " ∷ e ∷ [])) (L.from_value document)

  abbrev pub send_envelope : String → String → Bytes → Result TrqlError (Unit {0})
  send_envelope dest request_id envelope =
      map_err (λ e. transport tsp (format ("TSP send failed: " ∷ e ∷ []))) (L.send dest envelope)

  abbrev pub parsed : Result String TrustTask → Option TrustTask
  parsed (ok document) = some document
  parsed (err e) = none

  abbrev pub unsealed : Result String (Bytes × String) → Option TrustTask
  unsealed (err e) = none
  unsealed (ok (payload, sender)) = parsed (parse_envelope payload)

  -- The document that a poll brings.
  abbrev pub arrives : Polled Packed → Option TrustTask
  arrives (frame packed) = unsealed (L.unpack packed)
  arrives _ = none

  -- One round of `demux_loop`. A document that no waiter waits for is dropped.
  unfoldable pub demux_round : List ℕ → Polled Packed → Pending → Pending
  demux_round dropped (frame packed) p = routed dropped (unsealed (L.unpack packed)) p
  demux_round dropped other_frame p = p
  demux_round dropped nothing p = p
  demux_round dropped (failed e) p = p

  pub demux_round-routed :
      (dropped : List ℕ) (x : Polled Packed) (p : Pending)
      → demux_round dropped x p ≡ routed dropped (arrives x) p
  unfolding demux_round
  demux_round-routed dropped (frame packed) p = refl
  demux_round-routed dropped other_frame p = refl
  demux_round-routed dropped nothing p = refl
  demux_round-routed dropped (failed e) p = refl

  -- `TspTransport` as a binding
  abbrev pub binding : Binding
  binding = record {
    kind = tsp;
    Body = Bytes;
    Polled = Polled Packed;
    encode = build_envelope;
    send = send_envelope;
    arrives = arrives;
    step = demux_round;
    step-routed = demux_round-routed;
  }

  ok_inside :
      {A : Type 0} (f : String → TrqlError) (r : Result String A) (x : A)
      → map_err f r ≡ ok x
      → r ≡ ok x
  ok_inside f (ok y) x e = ground (arith, e)
  ok_inside f (err y) x e = ground (arith, e)

  -- The envelope that the bytes were made of.
  pub build_envelope-to_vec :
      (document : TrustTask) (v : Value) (bytes : Bytes)
      → L.to_value document ≡ ok v
      → build_envelope document ≡ ok bytes
      → L.to_vec (framed v) ≡ ok bytes
  unfolding build_envelope
  build_envelope-to_vec document v bytes wrote built =
      ok_inside (λ e. contract (format ("envelope did not serialize: " ∷ e ∷ [])))
        (L.to_vec (framed v)) bytes (sym (ap written wrote) ∙ built)

  -- A document that was put into an envelope is read back from it, where JSON reads back what it
  -- wrote.
  pub parse_envelope-build_envelope :
      (document : TrustTask) (v : Value) (bytes : Bytes)
      → L.to_value document ≡ ok v
      → L.from_value v ≡ ok document
      → ((w : Value) → L.to_vec w ≡ ok bytes → L.from_slice bytes ≡ ok w)
      → build_envelope document ≡ ok bytes
      → parse_envelope bytes ≡ ok document
  unfolding build_envelope parse_envelope lookup
  parse_envelope-build_envelope document v bytes wrote read slices built =
      let back = slices (framed v) (build_envelope-to_vec document v bytes wrote built) in
      simp (back, (eq_iff L.envelope_type L.envelope_type).1 refl, read)
