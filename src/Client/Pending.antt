-- ===== src/Client/Pending.antt =====
-- trql-client/src/pending.rs: replies routed to their waiters. A channel is a number; the numbers of
-- the channels whose receiver was dropped are given, since a send into one fails. The lock gives each
-- call the table alone.
pub mod Routing
use trust_registry_build_pip.Base.{
  ℕ, suc, String, Bool, true, false, not, Option, none, some, if◌then◌else◌, string_eq, nat_eq,
  List, [], ◌∷◌, contains,
}
use trust_registry_build_pip.Base.HashMap
use trust_registry_build_pip.Base.HashMap.{HashMap}

-- The documents that each channel has delivered, the latest first, are part of the state.
pub record PendingReplies (Document : Type 0) : Type 0 where
  pub inner : HashMap String ℕ
  pub next : ℕ
  pub delivered : List (ℕ × Document)

module _ {Document : Type 0} (thread_id : Document → Option String) where
  abbrev pub new : PendingReplies Document
  new = record { inner = []; next = 0; delivered = [] }

  -- The channel that `oneshot::channel` makes is a new one.
  unfoldable pub register : String → PendingReplies Document → ℕ × PendingReplies Document
  register request_id p =
      (p.next, record p { inner = HashMap.insert p.inner request_id p.next; next = suc p.next })

  unfoldable pub abandon : String → PendingReplies Document → PendingReplies Document
  abandon request_id p = record p { inner = HashMap.remove p.inner request_id }

  abbrev pub send :
      List ℕ → Option ℕ → Document → PendingReplies Document → Bool × PendingReplies Document
  send dropped none document p = (false, p)
  send dropped (some tx) document p =
      if contains dropped tx
      then (false, p)
      else (true, record p { delivered = (tx, document) ∷ p.delivered })

  abbrev pub route_to :
      List ℕ → Option String → Document → PendingReplies Document → Bool × PendingReplies Document
  route_to dropped none document p = (false, p)
  route_to dropped (some thread) document p =
      send dropped (HashMap.get p.inner thread) document
        (record p { inner = HashMap.remove p.inner thread })

  unfoldable pub route :
      List ℕ → Document → PendingReplies Document → Bool × PendingReplies Document
  route dropped document p = route_to dropped (thread_id document) document p
