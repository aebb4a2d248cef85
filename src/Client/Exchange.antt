-- ===== src/Client/Exchange.antt =====
-- trql-client/src/didcomm.rs and tsp.rs: an exchange over a mediator, which both transports make the
-- same way. A `Binding` is what they differ in. The loop that demultiplexes replies runs beside the
-- exchange: the frames that it handles until the wait ends are a list.
pub mod Waiting
pub mod Rounds
pub mod Delivery
use trust_registry_build_pip.Base.{
  ℕ, String, Option, none, some, Result, ok, err, List, [], ◌∷◌, ◌≡◌, string_eq, nat_eq,
}
use trust_registry_build_pip.Base.HashMap
use trust_registry_build_pip.Client.Error.{TransportKind, TrqlError, config, transport, timeout}
use trust_registry_build_pip.Client.Pending.{PendingReplies, register, abandon, route}
use trust_registry_build_pip.Client.Query.{TrustTask}

abbrev pub Pending : Type 0
Pending = PendingReplies TrustTask

abbrev pub thread_of : TrustTask → Option String
thread_of document = document.thread_id

-- What the loop does to the waiters with the document that a poll brings, if it brings one.
abbrev pub routed : List ℕ → Option TrustTask → Pending → Pending
routed dropped none p = p
routed dropped (some document) p = (route thread_of dropped document p).1

-- `Polled` is what a poll of the inbound stream gives, `arrives` the document in it.
pub record Binding : Type 1 where
  pub kind : TransportKind
  pub Body : Type 0
  pub Polled : Type 0
  pub encode : TrustTask → Result TrqlError Body
  pub send : String → String → Body → Result TrqlError (Unit {0})
  pub arrives : Polled → Option TrustTask
  pub step : List ℕ → Polled → Pending → Pending
  pub step-routed :
      (dropped : List ℕ) (x : Polled) (p : Pending)
      → step dropped x p ≡ routed dropped (arrives x) p

-- How a wait ends in which nothing was delivered.
pub data Ending : Type 0 where
  closed elapsed : Ending

module _ (B : Binding) (reply_timeout_secs : ℕ) (dropped : List ℕ) where
  unfoldable pub ending_error : Ending → TrqlError
  ending_error closed = transport B.kind "reply demux task stopped"
  ending_error elapsed = timeout B.kind reply_timeout_secs

  abbrev pub give_up : String → TrqlError → Pending → Result TrqlError TrustTask × Pending
  give_up id e p = (err e, abandon thread_of id p)

  -- The wait on the channel `tx`, while the loop handles frames.
  unfoldable pub wait :
      String → ℕ → Ending → List B.Polled → Pending → Result TrqlError TrustTask × Pending
  wait id tx ending [] p = elim (HashMap.get p.delivered tx) [
    | some document ↦ (ok document, p)
    | none ↦ give_up id (ending_error ending) p
  ]
  wait id tx ending (x ∷ polls) p = elim (HashMap.get p.delivered tx) [
    | some document ↦ (ok document, p)
    | none ↦ wait id tx ending polls (B.step dropped x p)
  ]

  abbrev pub after_send :
      String
      → Ending
      → List B.Polled
      → Result TrqlError (Unit {0})
      → ℕ × Pending
      → Result TrqlError TrustTask × Pending
  after_send id ending polls (err e) (tx, p) = give_up id e p
  after_send id ending polls (ok _) (tx, p) = wait id tx ending polls p

  -- The waiter is registered before the envelope is sent.
  abbrev pub send_body :
      TrustTask
      → String
      → Ending
      → List B.Polled
      → Result TrqlError B.Body
      → Pending
      → Result TrqlError TrustTask × Pending
  send_body request dest ending polls (err e) p = (err e, p)
  send_body request dest ending polls (ok body) p =
      after_send request.id ending polls (B.send dest request.id body)
        (register thread_of request.id p)

  abbrev pub exchange_to :
      TrustTask
      → Ending
      → List B.Polled
      → Option String
      → Pending
      → Result TrqlError TrustTask × Pending
  exchange_to request ending polls none p =
      (err (config "request document has no recipient to route to"), p)
  exchange_to request ending polls (some dest) p =
      send_body request dest ending polls (B.encode request) p

  unfoldable pub exchange :
      TrustTask → Ending → List B.Polled → Pending → Result TrqlError TrustTask × Pending
  exchange request ending polls p = exchange_to request ending polls request.recipient p
