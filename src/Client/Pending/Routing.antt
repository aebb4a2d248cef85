-- ===== src/Client/Pending/Routing.antt =====
-- A reply reaches the waiter of its own request, once.
use text.Mathlib.TextEquality.{eq_iff}
use trust_registry_build_pip.Base.{
  ℕ, String, true, false, ◌≡◌, ◌≢◌, refl, sym, ap, ◌∙◌, arith, Option, none, some, string_eq,
  nat_eq, List, ◌∷◌, contains,
}
use trust_registry_build_pip.Base.HashMap
use trust_registry_build_pip.Base.HashMap.{get-insert, get-remove}
use trust_registry_build_pip.Client.Pending.{
  PendingReplies, register, abandon, send, route_to, route,
}

module _ {Document : Type 0} (thread_id : Document → Option String) where
  -- A call of another request: a registration, an abandonment or a reply of another thread.
  pub data Other (k : String) (a b : PendingReplies Document) : Type 0 where
    registered : (j : String) → k ≢ j → b ≡ (register thread_id j a).1 → Other k a b
    abandoned : (j : String) → k ≢ j → b ≡ abandon thread_id j a → Other k a b
    routed :
        (dropped : List ℕ) (d : Document)
        → thread_id d ≢ some k
        → b ≡ (route thread_id dropped d a).1
        → Other k a b

  pub data Others (k : String) (a : PendingReplies Document)
      : PendingReplies Document → Type 0 where
    here : Others k a a
    next : {b c : PendingReplies Document} → Others k a b → Other k b c → Others k a c

  register_other :
      (k j : String) (a : PendingReplies Document)
      → k ≢ j
      → HashMap.get (register thread_id j a).1.inner k ≡ HashMap.get a.inner k
  unfolding register
  register_other k j a ne = ground (arith, get-insert a.inner j k a.next, eq_iff j k)

  abandon_other :
      (k j : String) (a : PendingReplies Document)
      → k ≢ j
      → HashMap.get (abandon thread_id j a).inner k ≡ HashMap.get a.inner k
  unfolding abandon
  abandon_other k j a ne = ground (arith, get-remove a.inner j k, eq_iff j k)

  pub send_inner :
      (dropped : List ℕ) (tx : Option ℕ) (d : Document) (p : PendingReplies Document)
      → (send thread_id dropped tx d p).1.inner ≡ p.inner
  send_inner dropped none d p = refl
  send_inner dropped (some tx) d p = ground arith

  pub route_to_other :
      (k : String) (dropped : List ℕ) (t : Option String) (d : Document)
      (a : PendingReplies Document)
      → t ≢ some k
      → HashMap.get (route_to thread_id dropped t d a).1.inner k ≡ HashMap.get a.inner k
  unfolding abandon
  route_to_other k dropped none d a ne = refl
  route_to_other k dropped (some j) d a ne =
      ap (λ m. HashMap.get m k)
        (send_inner dropped (HashMap.get a.inner j) d
          (record a { inner = HashMap.remove a.inner j }))
      ∙ abandon_other k j a (λ e. ne (sym (ap some e)))

  Other-get :
      (k : String) {a b : PendingReplies Document}
      → Other k a b
      → HashMap.get b.inner k ≡ HashMap.get a.inner k
  unfolding route
  Other-get k {a} (registered j ne e) = ap (λ p. HashMap.get p.inner k) e ∙ register_other k j a ne
  Other-get k {a} (abandoned j ne e) = ap (λ p. HashMap.get p.inner k) e ∙ abandon_other k j a ne
  Other-get k {a} (routed dropped d ne e) =
      ap (λ p. HashMap.get p.inner k) e ∙ route_to_other k dropped (thread_id d) d a ne

  Others-get :
      (k : String) {a b : PendingReplies Document}
      → Others k a b
      → HashMap.get b.inner k ≡ HashMap.get a.inner k
  Others-get k here = refl
  Others-get k (next ss s) = Other-get k s ∙ Others-get k ss

  registered_get :
      (k : String) (a : PendingReplies Document)
      → HashMap.get (register thread_id k a).1.inner k ≡ some a.next
  unfolding register
  registered_get k a = ground (arith, get-insert a.inner k k a.next, eq_iff k k)

  pub route_waiting :
      (k : String) (tx : ℕ) (dropped : List ℕ) (t : Option String) (d : Document)
      (b : PendingReplies Document)
      → t ≡ some k
      → HashMap.get b.inner k ≡ some tx
      → contains dropped tx ≡ false
      → let sent = route_to thread_id dropped t d b in
        (sent.0 ≡ true)
        × (sent.1.delivered ≡ (tx, d) ∷ b.delivered)
        × (HashMap.get sent.1.inner k ≡ none)
  route_waiting k tx dropped none d b e waiting open_ = cc
  route_waiting k tx dropped (some j) d b e waiting open_ =
      ground (arith, get-remove b.inner j k, eq_iff j k, eq_iff k k)

  -- After a request has been registered, and whatever calls of other requests follow, a reply of its
  -- thread is delivered to the channel of the registration if its receiver is still there; the waiter
  -- is then gone.
  pub route_registered :
      (k : String) (dropped : List ℕ) (d : Document) (a b : PendingReplies Document)
      → Others k (register thread_id k a).1 b
      → thread_id d ≡ some k
      → contains dropped (register thread_id k a).0 ≡ false
      → let sent = route thread_id dropped d b in
        (sent.0 ≡ true)
        × (sent.1.delivered ≡ ((register thread_id k a).0, d) ∷ b.delivered)
        × (HashMap.get sent.1.inner k ≡ none)
  unfolding route register
  route_registered k dropped d a b others thread open_ =
      route_waiting k a.next dropped (thread_id d) d b thread
        (Others-get k others ∙ registered_get k a) open_
