-- ===== src/Client/Exchange/Waiting.antt =====
-- What holds of a table of waiters while an exchange waits for its reply.
use text.Mathlib.TextEquality.{eq_iff}
use trust_registry_build_pip.Base.{
  ℕ, ◌≤◌, ◌<◌, String, ◌≡◌, ◌≢◌, refl, sym, ap, ◌∙◌, arith, Option, none, some, string_eq, nat_eq,
  List, ◌∷◌, contains, nat_beq, nat_beq_iff, Bool-cases, inl, inr,
}
use trust_registry_build_pip.Base.HashMap
use trust_registry_build_pip.Base.HashMap.{get-insert, get-remove}
use trust_registry_build_pip.Client.Pending.{
  PendingReplies, new, register, abandon, send, route_to, route,
}
use trust_registry_build_pip.Client.Pending.Routing.{send_inner, route_to_other}

module _ {Document : Type 0} (thread_id : Document → Option String) where
  -- Every channel was made before the next one.
  pub record IsSound (p : PendingReplies Document) : Type 0 where
    pub waiting_made : (j : String) (n : ℕ) → HashMap.get p.inner j ≡ some n → n < p.next
    pub delivered_made : (n : ℕ) → p.next ≤ n → HashMap.get p.delivered n ≡ none

  -- The channel `tx` waits for a reply of the thread `k` alone, and nothing was delivered to it.
  pub record IsWaiting (k : String) (tx : ℕ) (p : PendingReplies Document) : Type 0 where
    pub held : HashMap.get p.inner k ≡ some tx
    pub alone : (j : String) → HashMap.get p.inner j ≡ some tx → j ≡ k
    pub silent : HashMap.get p.delivered tx ≡ none

  pub register-IsWaiting :
      (k : String) (p : PendingReplies Document)
      → IsSound p
      → IsWaiting k p.next (register thread_id k p).1
  unfolding register
  register-IsWaiting k p sound = record {
    held = ground (arith, get-insert p.inner k k p.next, eq_iff k k);
    alone = λ j e.
        ground (arith, get-insert p.inner k j p.next, eq_iff k j, e, sound.waiting_made j p.next);
    silent = sound.delivered_made p.next (ground arith);
  }

  removed :
      (m : HashMap.HashMap String ℕ) (t j : String) (n : ℕ)
      → HashMap.get (HashMap.remove m t) j ≡ some n
      → HashMap.get m j ≡ some n
  removed m t j n e = ground (arith, get-remove m t j, e)

  -- Another channel is not this one, so that a send into it delivers nothing here.
  send-silent :
      (dropped : List ℕ) (w : Option ℕ) (tx : ℕ) (d : Document) (p : PendingReplies Document)
      → w ≢ some tx
      → HashMap.get p.delivered tx ≡ none
      → HashMap.get (send thread_id dropped w d p).1.delivered tx ≡ none
  unfolding HashMap.get
  send-silent dropped none tx d p other silent = silent
  send-silent dropped (some n) tx d p other silent = elim (Bool-cases (contains dropped n)) [
    | inl gone ↦ simp (gone, silent)
    | inr open_ ↦ elim (Bool-cases (nat_beq n tx)) [
      | inl same ↦ absurd (other (ap some ((nat_beq_iff n tx).0 same)))
      | inr apart ↦ simp (open_, apart, silent)
    ]
  ]

  pub route_to-IsWaiting :
      (k : String) (tx : ℕ) (dropped : List ℕ) (t : Option String) (d : Document)
      (p : PendingReplies Document)
      → t ≢ some k
      → IsWaiting k tx p
      → IsWaiting k tx (route_to thread_id dropped t d p).1
  route_to-IsWaiting k tx dropped none d p other w = w
  route_to-IsWaiting k tx dropped (some t) d p other w = record {
    held = route_to_other thread_id k dropped (some t) d p other ∙ w.held;
    alone = λ j e. w.alone j (
        removed p.inner t j tx (
          sym (
            ap (λ m. HashMap.get m j)
              (send_inner thread_id dropped (HashMap.get p.inner t) d
                (record p { inner = HashMap.remove p.inner t })))
          ∙ e));
    silent =
        send-silent dropped (HashMap.get p.inner t) tx d
          (record p { inner = HashMap.remove p.inner t }) (λ e. other (ap some (w.alone t e)))
          w.silent;
  }

  -- The calls keep a table sound, and a new one is.
  pub new-IsSound : IsSound (new thread_id)
  unfolding HashMap.get
  new-IsSound = record { waiting_made = λ j n e. ground (arith, e); delivered_made = λ n l. refl }

  pub register-IsSound :
      (k : String) (p : PendingReplies Document) → IsSound p → IsSound (register thread_id k p).1
  unfolding register
  register-IsSound k p sound = record {
    waiting_made =
        λ j n e. ground (arith, get-insert p.inner k j p.next, e, sound.waiting_made j n);
    delivered_made = λ n l. sound.delivered_made n (ground (arith, l));
  }

  pub abandon-IsSound :
      (k : String) (p : PendingReplies Document) → IsSound p → IsSound (abandon thread_id k p)
  unfolding abandon
  abandon-IsSound k p sound = record {
    waiting_made = λ j n e. sound.waiting_made j n (removed p.inner k j n e);
    delivered_made = sound.delivered_made;
  }

  later :
      {next : ℕ} (m : List (ℕ × Document)) (tx n : ℕ) (d : Document)
      → tx < next
      → next ≤ n
      → HashMap.get m n ≡ none
      → HashMap.get ((tx, d) ∷ m) n ≡ none
  unfolding HashMap.get
  later m tx n d made l silent = ground (arith, silent, nat_beq_iff tx n)

  send-IsSound :
      (dropped : List ℕ) (w : Option ℕ) (d : Document) (p : PendingReplies Document)
      → ((n : ℕ) → w ≡ some n → n < p.next)
      → IsSound p
      → IsSound (send thread_id dropped w d p).1
  send-IsSound dropped none d p made sound = sound
  send-IsSound dropped (some tx) d p made sound = elim (Bool-cases (contains dropped tx)) [
    | inl gone ↦ simp gone sound
    | inr open_ ↦ simp open_ (record {
      waiting_made = sound.waiting_made;
      delivered_made =
          λ n l. later (p.delivered) tx n d (made tx refl) l (sound.delivered_made n l);
    })
  ]

  route_to-IsSound :
      (dropped : List ℕ) (t : Option String) (d : Document) (p : PendingReplies Document)
      → IsSound p
      → IsSound (route_to thread_id dropped t d p).1
  unfolding abandon
  route_to-IsSound dropped none d p sound = sound
  route_to-IsSound dropped (some t) d p sound =
      send-IsSound dropped (HashMap.get p.inner t) d (abandon thread_id t p)
        (λ n e. sound.waiting_made t n e) (abandon-IsSound t p sound)

  pub route-IsSound :
      (dropped : List ℕ) (d : Document) (p : PendingReplies Document)
      → IsSound p
      → IsSound (route thread_id dropped d p).1
  unfolding route
  route-IsSound dropped d p sound = route_to-IsSound dropped (thread_id d) d p sound
