-- ===== src/Didcomm/Pickup/Drained.antt =====
-- What the offline sync does to a queue at the mediator: it empties it, from the front.
use mathlib.Core.List.{append_assoc}
use trust_registry_build_pip.Base.{
  true, false, none, Bool-cases, inl, inr, ℕ, zero, suc, ◌+◌, ◌*◌, ◌≤◌, String, Bool, false, Option,
  some, Result, ok, err, List, [], ◌∷◌, ◌++◌, map, nat_beq, if◌then◌else◌, ◌≡◌, refl, sym, ap, ◌∙◌,
  subst, arith,
}
use trust_registry_build_pip.Base.Sequences.{
  length, take, drop, take_add, drop_add, take_all, drop_all,
}
use trust_registry_build_pip.Didcomm.Pickup.{
  InboundFrame, did_comm, tsp, other, Task, handle, process_tsp_frame, Mediator, Outcome,
  messages_limit, spawn, spawn_all, acked, dispatched, counted, sync_and_process_offline_messages,
  periodic_offline_sync,
}

-- A mediator that answers, with a queue of frames and their ids: it counts the queue, delivers its
-- beginning up to the limit, and drops a beginning of it whose ids are acknowledged.
pub record Queue {Message W : Type 0} (mediator : Mediator Message W) : Type 0 where
  pub queue : W → List (Option (InboundFrame Message) × String)
  pub counts : (w : W) → (mediator.send_status_request w).0 ≡ ok (some (length (queue w)))
  pub counting : (w : W) → queue (mediator.send_status_request w).1 ≡ queue w
  pub delivers :
      (n : ℕ) (w : W) → (mediator.send_delivery_request_frames n w).0 ≡ ok (take n (queue w))
  pub delivering : (n : ℕ) (w : W) → queue (mediator.send_delivery_request_frames n w).1 ≡ queue w
  pub drops :
      (n : ℕ) (w : W)
      → queue (mediator.send_messages_received (map (λ f. f.1) (take n (queue w))) w).1
        ≡ drop n (queue w)

-- The tasks that a queue calls for, in order: one for every DIDComm message and, where frames of TSP are
-- served, one for every such frame. Every other entry calls for none.
pub data CallsFor {Message : Type 0} (has_tsp : Bool)
    : List (Option (InboundFrame Message) × String) → List (Task Message) → Type 0 where
  empty : CallsFor has_tsp [] []
  message :
      {q : List (Option (InboundFrame Message) × String)} {ts : List (Task Message)} (m : Message)
      (id : String)
      → CallsFor has_tsp q ts
      → CallsFor has_tsp ((some (did_comm m), id) ∷ q) (handle m ∷ ts)
  served_frame :
      {q : List (Option (InboundFrame Message) × String)} {ts : List (Task Message)}
      (packed id : String)
      → has_tsp ≡ true
      → CallsFor has_tsp q ts
      → CallsFor has_tsp ((some (tsp packed), id) ∷ q) (process_tsp_frame packed ∷ ts)
  unserved_frame :
      {q : List (Option (InboundFrame Message) × String)} {ts : List (Task Message)}
      (packed id : String)
      → has_tsp ≡ false
      → CallsFor has_tsp q ts
      → CallsFor has_tsp ((some (tsp packed), id) ∷ q) ts
  other_frame :
      {q : List (Option (InboundFrame Message) × String)} {ts : List (Task Message)} (id : String)
      → CallsFor has_tsp q ts
      → CallsFor has_tsp ((some other, id) ∷ q) ts
  unreadable :
      {q : List (Option (InboundFrame Message) × String)} {ts : List (Task Message)} (id : String)
      → CallsFor has_tsp q ts
      → CallsFor has_tsp ((none, id) ∷ q) ts

module _ {Message W : Type 0} (mediator : Mediator Message W) (has_tsp : Bool)
    (Q : Queue mediator) where
  -- A beginning of the queue is taken: its frames are spawned, and the rest stays.
  abbrev pub Takes : ℕ → W → List (Task Message) → W → Type 0
  Takes n w tasks w' =
      (tasks ≡ spawn_all mediator has_tsp (take n (Q.queue w))) × (Q.queue w' ≡ drop n (Q.queue w))

  abbrev ids : List (Option (InboundFrame Message) × String) → List String
  ids frames = map (λ f. f.1) frames

  spawn_all-append :
      (xs ys : List (Option (InboundFrame Message) × String))
      → spawn_all mediator has_tsp (xs ++ ys)
        ≡ spawn_all mediator has_tsp xs ++ spawn_all mediator has_tsp ys
  unfolding spawn_all
  spawn_all-append [] ys = refl
  spawn_all-append ((frame, id) ∷ xs) ys =
      ap (λ r. spawn mediator has_tsp frame ++ r) (spawn_all-append xs ys)
      ∙ sym (
          append_assoc (spawn mediator has_tsp frame) (spawn_all mediator has_tsp xs)
            (spawn_all mediator has_tsp ys))

  abbrev TakesOutcome : ℕ → W → Outcome Message W → Type 0
  TakesOutcome n w o = Takes n w o.1 o.2

  acked-Takes :
      (n : ℕ) (w v : W) (reply : Result String (Option (Unit {0})))
      → Q.queue v ≡ drop n (Q.queue w)
      → TakesOutcome n w
          (acked mediator has_tsp (spawn_all mediator has_tsp (take n (Q.queue w))) reply v)
  acked-Takes n w v (err e) rest = (refl, rest)
  acked-Takes n w v (ok reply) rest = (refl, rest)

  dispatched-Takes :
      (n : ℕ) (w v : W) (r : Result String (List (Option (InboundFrame Message) × String)))
      → r ≡ ok (take n (Q.queue w))
      → Q.queue v ≡ Q.queue w
      → TakesOutcome n w (dispatched mediator has_tsp r v)
  dispatched-Takes n w v r e same =
      subst (λ r. TakesOutcome n w (dispatched mediator has_tsp r v)) (sym e)
        (acked-Takes n w (mediator.send_messages_received (ids (take n (Q.queue w))) v).1
          (mediator.send_messages_received (ids (take n (Q.queue w))) v).0
          (subst (λ q. Q.queue (mediator.send_messages_received (ids (take n q)) v).1 ≡ drop n q)
            same (Q.drops n v)))

  nonempty : (n : ℕ) → nat_beq (suc n) 0 ≡ false
  nonempty n = ground arith

  counted-length :
      (w v : W) (q : List (Option (InboundFrame Message) × String))
      → Q.queue w ≡ q
      → Q.queue v ≡ Q.queue w
      → TakesOutcome messages_limit w (counted mediator has_tsp (ok (some (length q))) v)
  unfolding spawn_all
  counted-length w v [] e same = (
    ap (λ q. spawn_all mediator has_tsp (take messages_limit q)) (sym e),
    same ∙ e ∙ ap (drop messages_limit) (sym e),
  )
  counted-length w v (f ∷ fs) e same =
      let found = mediator.send_delivery_request_frames messages_limit v in
      subst
        (λ b.
          TakesOutcome messages_limit w
            (if b then (ok tt, [], v) else dispatched mediator has_tsp found.0 found.1))
        (sym (nonempty (length fs)))
        (dispatched-Takes messages_limit w found.1 found.0
          (Q.delivers messages_limit v ∙ ap (λ q. ok (take messages_limit q)) same)
          (Q.delivering messages_limit v ∙ same))

  -- A round takes the first hundred, or finds the queue empty.
  counted-Takes :
      (w v : W) (r : Result String (Option ℕ))
      → r ≡ ok (some (length (Q.queue w)))
      → Q.queue v ≡ Q.queue w
      → TakesOutcome messages_limit w (counted mediator has_tsp r v)
  counted-Takes w v r e same =
      subst (λ r. TakesOutcome messages_limit w (counted mediator has_tsp r v)) (sym e)
        (counted-length w v (Q.queue w) refl same)

  pub sync_and_process_offline_messages-Takes :
      (w : W) → TakesOutcome messages_limit w (sync_and_process_offline_messages mediator has_tsp w)
  unfolding sync_and_process_offline_messages
  sync_and_process_offline_messages-Takes w =
      counted-Takes w (mediator.send_status_request w).1 (mediator.send_status_request w).0
        (Q.counts w) (Q.counting w)

  Takes-later :
      (n m : ℕ) (w v u : W) (ts us : List (Task Message))
      → Takes n w ts v
      → Takes m v us u
      → Takes (n + m) w (ts ++ us) u
  Takes-later n m w v u ts us first next = (
    ap (λ t. t ++ us) (first.0)
        ∙ ap (λ u. spawn_all mediator has_tsp (take n (Q.queue w)) ++ u)
            (next.0 ∙ ap (λ q. spawn_all mediator has_tsp (take m q)) first.1)
        ∙ sym (spawn_all-append (take n (Q.queue w)) (take m (drop n (Q.queue w))))
        ∙ ap (spawn_all mediator has_tsp) (sym (take_add n m (Q.queue w))),
    next.1 ∙ ap (drop m) first.1 ∙ sym (drop_add n m (Q.queue w)),
  )

  suc_times : (rounds : ℕ) → messages_limit + rounds * messages_limit ≡ suc rounds * messages_limit
  suc_times rounds = omega arith

  periodic_offline_sync-Takes :
      (rounds : ℕ) (w : W)
      → let o = periodic_offline_sync mediator has_tsp rounds w in
        Takes (rounds * messages_limit) w o.0 o.1
  unfolding periodic_offline_sync spawn_all
  periodic_offline_sync-Takes zero w = (refl, refl)
  periodic_offline_sync-Takes (suc rounds) w =
      let (result, tasks, v) = sync_and_process_offline_messages mediator has_tsp w in
      let (tasks', u) = periodic_offline_sync mediator has_tsp rounds v in
      subst (λ n. Takes n w (tasks ++ tasks') u) (suc_times rounds)
        (Takes-later messages_limit (rounds * messages_limit) w v u tasks tasks'
          (sync_and_process_offline_messages-Takes w) (periodic_offline_sync-Takes rounds v))

  spawn_all-CallsFor :
      (q : List (Option (InboundFrame Message) × String))
      → CallsFor has_tsp q (spawn_all mediator has_tsp q)
  unfolding spawn_all spawn
  spawn_all-CallsFor [] = empty
  spawn_all-CallsFor ((some (did_comm m), id) ∷ q) = message m id (spawn_all-CallsFor q)
  spawn_all-CallsFor ((some (tsp packed), id) ∷ q) =
      let ts = spawn_all mediator has_tsp q in
      let goal : Bool → Type 0 = λ b.
        CallsFor has_tsp ((some (tsp packed), id) ∷ q)
          ((if b then process_tsp_frame packed ∷ [] else []) ++ ts) in
      elim (Bool-cases has_tsp) [
        | inl on ↦ subst goal (sym on) (served_frame packed id on (spawn_all-CallsFor q))
        | inr off ↦ subst goal (sym off) (unserved_frame packed id off (spawn_all-CallsFor q))
      ]
  spawn_all-CallsFor ((some other, id) ∷ q) = other_frame id (spawn_all-CallsFor q)
  spawn_all-CallsFor ((none, id) ∷ q) = unreadable id (spawn_all-CallsFor q)

  -- Over a mediator that answers: after rounds enough for the queue, at a hundred entries each, the queue
  -- is empty, and the tasks that were spawned are, in order, one for every queued DIDComm message and,
  -- where the listener serves TSP, one for every queued TSP frame. Other entries are dropped.
  pub periodic_offline_sync-drains :
      (rounds : ℕ) (w : W)
      → length (Q.queue w) ≤ rounds * messages_limit
      → let (tasks, w') = periodic_offline_sync mediator has_tsp rounds w in
        CallsFor has_tsp (Q.queue w) tasks × (Q.queue w' ≡ [])
  periodic_offline_sync-drains rounds w enough =
      let taken = periodic_offline_sync-Takes rounds w in
      let whole = take_all (rounds * messages_limit) (Q.queue w) enough in
      (
        subst (CallsFor has_tsp (Q.queue w)) (sym (taken.0 ∙ ap (spawn_all mediator has_tsp) whole))
            (spawn_all-CallsFor (Q.queue w)),
        taken.1 ∙ drop_all (rounds * messages_limit) (Q.queue w) enough,
      )
