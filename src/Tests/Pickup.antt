-- ===== src/Tests/Pickup.antt =====
-- A queue at the mediator, and what the listener makes of it.
use trust_registry_build_pip.Base.{
  ℕ, zero, suc, String, true, Option, none, some, ok, List, [], ◌∷◌, map, ◌≡◌, refl, arith,
}
use trust_registry_build_pip.Base.Sequences.{length, take, drop}
use trust_registry_build_pip.Didcomm.Pickup.{
  InboundFrame, did_comm, tsp, other, Mediator, periodic_offline_sync,
}
use trust_registry_build_pip.Didcomm.Pickup.Drained.{Queue, CallsFor, periodic_offline_sync-drains}

abbrev Entry : Type 0
Entry = Option (InboundFrame String) × String

-- The queue is the world. As many entries are dropped as are acknowledged.
abbrev mediator : Mediator String (List Entry)
mediator = record {
  Acls = ℕ;
  account_get = λ w. (ok (some 0), w);
  set_access_list_mode = λ mode acls. ok 1;
  acls_set = λ did acls w. (ok tt, w);
  digest = λ did. did;
  live_stream_next_frame = λ w. (ok none, w);
  send_status_request = λ w. (ok (some (length w)), w);
  send_delivery_request_frames = λ n w. (ok (take n w), w);
  send_messages_received = λ ids w. (ok (some tt), drop (length ids) w);
}

drop-take : (n : ℕ) (w : List Entry) → drop (length (map (λ f. f.1) (take n w))) w ≡ drop n w
drop-take zero w = refl
drop-take (suc n) [] = refl
drop-take (suc n) (f ∷ w) = drop-take n w

abbrev queue : Queue mediator
queue = record {
  queue = λ w. w;
  counts = λ w. refl;
  counting = λ w. refl;
  delivers = λ n w. refl;
  delivering = λ n w. refl;
  drops = drop-take;
}

abbrev entries : List Entry
entries = (some (did_comm "m"), "1") ∷ (some other, "2") ∷ (some (tsp "p"), "3") ∷ []

periodic_offline_sync-drains_example :
    let (tasks, w') = periodic_offline_sync mediator true 1 entries in
    CallsFor true entries tasks × (w' ≡ [])
periodic_offline_sync-drains_example =
    periodic_offline_sync-drains mediator true queue 1 entries (omega arith)
