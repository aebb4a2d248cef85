-- ===== src/Client/Didcomm.antt =====
-- trql-client/src/didcomm.rs: the exchange over DIDComm, and the loop that demultiplexes replies. The
-- messaging library is a parameter; a message that was taken in is acknowledged by its hash.
use trust_registry_build_pip.Base.{
  ℕ, String, Option, none, some, Result, ok, err, map_err, ◌>>=◌, ok_or, if◌then◌else◌, List, [],
  ◌∷◌, format, ◌≡◌, refl, ◌==◌, string_eq,
}
use trust_registry_build_pip.Domain.Json.{Value}
use trust_registry_build_pip.Client.Error.{didcomm, TrqlError, config, contract, transport}
use trust_registry_build_pip.Client.Pending.{route}
use trust_registry_build_pip.Client.Query.{TrustTask}
use trust_registry_build_pip.Client.Exchange.{Pending, Binding, thread_of, routed}

-- `Message` of the messaging library.
pub record Message : Type 0 where
  pub id : String
  pub typ : String
  pub body : Value
  pub from : String
  pub to : String
  pub thid : String

-- What a poll of the pickup stream gives: a message with its hash, nothing, or an error.
pub data Polled : Type 0 where
  message : Message → String → Polled
  nothing : Polled
  failed : String → Polled

-- What the transport uses of the libraries, and of its profile.
pub record Library : Type 1 where
  pub Packed : Type 0
  pub envelope_type : String
  pub to_value : TrustTask → Result String Value
  pub from_value : Value → Result String TrustTask
  pub pack_encrypted : Message → String → String → Result String Packed
  pub forward_and_send : Packed → String → String → String → Result String (Unit {0})
  pub my_did : String
  pub mediator : Option String

module _ (L : Library) where
  abbrev pub encode : TrustTask → Result TrqlError Value
  encode request =
      map_err (λ e. contract (format ("request did not serialize: " ∷ e ∷ []))) (L.to_value request)

  -- `envelope_id` is a new random id.
  abbrev pub send_envelope : String → String → String → Value → Result TrqlError (Unit {0})
  send_envelope envelope_id dest request_id body = do
    packed ←
        map_err (λ e. transport didcomm (format ("packing failed: " ∷ e ∷ [])))
          (L.pack_encrypted
            (record {
              id = envelope_id;
              typ = L.envelope_type;
              body = body;
              from = L.my_did;
              to = dest;
              thid = request_id;
            })
            dest L.my_did)
    mediator ← ok_or L.mediator (config "profile lost its mediator configuration")
    map_err (λ e. transport didcomm (format ("send via mediator failed: " ∷ e ∷ [])))
        (L.forward_and_send packed envelope_id mediator dest)

  -- The document that a poll brings.
  abbrev pub parsed : Result String TrustTask → Option TrustTask
  parsed (ok document) = some document
  parsed (err e) = none

  abbrev pub arrives : Polled → Option TrustTask
  arrives (message m hash) = if m.typ == L.envelope_type then parsed (L.from_value m.body) else none
  arrives nothing = none
  arrives (failed e) = none

  -- A reply that reached its waiter is acknowledged, any other message stays in the queue.
  abbrev pub take_in : List ℕ → String → Option TrustTask → Pending → List String × Pending
  take_in dropped hash none p = ([], p)
  take_in dropped hash (some document) p =
      let (reached, p') = route thread_of dropped document p in
      (if reached then hash ∷ [] else [], p')

  -- One round of `demux_loop`, with the hashes that it acknowledges.
  unfoldable pub demux_round : List ℕ → Polled → Pending → List String × Pending
  demux_round dropped (message m hash) p = take_in dropped hash (arrives (message m hash)) p
  demux_round dropped nothing p = ([], p)
  demux_round dropped (failed e) p = ([], p)

  take_in-routed :
      (dropped : List ℕ) (hash : String) (o : Option TrustTask) (p : Pending)
      → (take_in dropped hash o p).1 ≡ routed dropped o p
  take_in-routed dropped hash none p = refl
  take_in-routed dropped hash (some d) p = refl

  pub demux_round-routed :
      (dropped : List ℕ) (x : Polled) (p : Pending)
      → (demux_round dropped x p).1 ≡ routed dropped (arrives x) p
  unfolding demux_round
  demux_round-routed dropped (message m hash) p =
      take_in-routed dropped hash (arrives (message m hash)) p
  demux_round-routed dropped nothing p = refl
  demux_round-routed dropped (failed e) p = refl

  -- `DidcommTransport` as a binding
  abbrev pub binding : String → Binding
  binding envelope_id = record {
    kind = didcomm;
    Body = Value;
    Polled = Polled;
    encode = encode;
    send = send_envelope envelope_id;
    arrives = arrives;
    step = λ dropped x p. (demux_round dropped x p).1;
    step-routed = demux_round-routed;
  }
