-- ===== src/Didcomm/Pickup.antt =====
-- trust-registry/src/didcomm/listener/mediator_functions.rs and start_listener.rs: the messages that the
-- listener picks up at the mediator, live and from the queue. The mediator is a parameter over a world;
-- the tasks that are spawned are a list, in the order of spawning. The feature `tsp` is on.
pub mod Drained
use trust_registry_build_pip.Base.{
  ℕ, zero, suc, String, Bool, true, false, Option, none, some, unwrap_or, Result, ok, err, List, [],
  ◌∷◌, ◌++◌, map, format, nat_beq, if◌then◌else◌, ok_or, ◌>>=◌,
}
use trust_registry_build_pip.Configs.Didcomm.{AccessListModeType, explicit_allow, explicit_deny}

-- `InboundFrame`
pub data InboundFrame (Message : Type 0) : Type 0 where
  did_comm : Message → InboundFrame Message
  tsp : String → InboundFrame Message
  other : InboundFrame Message

-- What a spawned task does: the handler of messages, or the processing of a TSP frame.
pub data Task (Message : Type 0) : Type 0 where
  handle : Message → Task Message
  process_tsp_frame : String → Task Message

abbrev pub Outcome : Type 0 → Type 0 → Type 0
Outcome Message W = Result String (Unit {0}) × List (Task Message) × W

-- The calls of the messaging library. A status reply has the count of the queued messages, if it comes.
pub record Mediator (Message W : Type 0) : Type 1 where
  pub Acls : Type 0
  pub account_get : W → Result String (Option Acls) × W
  pub set_access_list_mode : AccessListModeType → Acls → Result String Acls
  pub acls_set : String → Acls → W → Result String (Unit {0}) × W
  pub digest : String → String
  pub live_stream_next_frame : W → Result String (Option (InboundFrame Message)) × W
  pub send_status_request : W → Result String (Option ℕ) × W
  pub send_delivery_request_frames :
      ℕ → W → Result String (List (Option (InboundFrame Message) × String)) × W
  pub send_messages_received : List String → W → Result String (Option (Unit {0})) × W

abbrev pub messages_limit : ℕ
messages_limit = 100

module _ {Message W : Type 0} (mediator : Mediator Message W) (alias did : String) where
  abbrev pub account_info : Result String (Option mediator.Acls) → Result String mediator.Acls
  account_info reply = reply >>= λ info.
      ok_or info (format ("[profile = " ∷ alias ∷ "] Failed to get account info" ∷ []))

  abbrev pub store_acls : Result String mediator.Acls → W → Result String (Unit {0}) × W
  store_acls (err e) w = (err e, w)
  store_acls (ok acls) w = mediator.acls_set (mediator.digest did) acls w

  unfoldable pub set_acls_mode : AccessListModeType → W → Result String (Unit {0}) × W
  set_acls_mode acl_mode w =
      let (reply, w') = mediator.account_get w in
      store_acls (account_info reply >>= mediator.set_access_list_mode acl_mode) w'

  abbrev pub set_mode : AccessListModeType → W → Result String (Unit {0}) × W
  set_mode explicit_allow w = set_acls_mode explicit_allow w
  set_mode explicit_deny w = set_acls_mode explicit_deny w

-- `has_tsp` says whether the listener has a context for TSP.
module _ {Message W : Type 0} (mediator : Mediator Message W) (has_tsp : Bool) where
  abbrev pub spawn_tsp_handler : String → List (Task Message)
  spawn_tsp_handler packed = if has_tsp then process_tsp_frame packed ∷ [] else []

  unfoldable pub spawn : Option (InboundFrame Message) → List (Task Message)
  spawn (some (did_comm message)) = handle message ∷ []
  spawn (some (tsp packed)) = spawn_tsp_handler packed
  spawn (some other) = []
  spawn none = []

  abbrev pub next_frame : Result String (Option (InboundFrame Message)) → W → Outcome Message W
  next_frame (err e) w = (err e, [], w)
  next_frame (ok frame) w = (ok tt, spawn frame, w)

  unfoldable pub process_next_message : W → Outcome Message W
  process_next_message w =
      let (frame, w') = mediator.live_stream_next_frame w in next_frame frame w'

  unfoldable pub spawn_all : List (Option (InboundFrame Message) × String) → List (Task Message)
  spawn_all [] = []
  spawn_all ((frame, id) ∷ frames) = spawn frame ++ spawn_all frames

  abbrev pub acked : List (Task Message) → Result String (Option (Unit {0})) → W → Outcome Message W
  acked tasks (err e) w = (err e, tasks, w)
  acked tasks (ok reply) w = (ok tt, tasks, w)

  abbrev pub dispatched :
      Result String (List (Option (InboundFrame Message) × String)) → W → Outcome Message W
  dispatched (err e) w = (err e, [], w)
  dispatched (ok frames) w =
      let (reply, w') = mediator.send_messages_received (map (λ f. f.1) frames) w in
      acked (spawn_all frames) reply w'

  abbrev pub deliver : W → Outcome Message W
  deliver w =
      let (frames, w') = mediator.send_delivery_request_frames messages_limit w in
      dispatched frames w'

  abbrev pub counted : Result String (Option ℕ) → W → Outcome Message W
  counted (err e) w = (err e, [], w)
  counted (ok reply) w = if nat_beq (unwrap_or reply 0) 0 then (ok tt, [], w) else deliver w

  unfoldable pub sync_and_process_offline_messages : W → Outcome Message W
  sync_and_process_offline_messages w =
      let (reply, w') = mediator.send_status_request w in counted reply w'

  -- The rounds of the loop before the shutdown; a round that fails is logged.
  unfoldable pub periodic_offline_sync : ℕ → W → List (Task Message) × W
  periodic_offline_sync zero w = ([], w)
  periodic_offline_sync (suc rounds) w =
      let (result, tasks, w') = sync_and_process_offline_messages w in
      let (tasks', w'') = periodic_offline_sync rounds w' in (tasks ++ tasks', w'')

  -- Some rounds of the endless loop.
  unfoldable pub listen : ℕ → W → List (Task Message) × W
  listen zero w = ([], w)
  listen (suc rounds) w =
      let (result, tasks, w') = process_next_message w in
      let (tasks', w'') = listen rounds w' in (tasks ++ tasks', w'')

-- The mode that is configured is set first; that it fails is logged. The offline sync runs beside the
-- loop.
unfoldable pub start_listening :
    {Message W : Type 0}
    → Mediator Message W
    → Bool
    → (alias did : String) → AccessListModeType
    → (rounds : ℕ) → W
    → List (Task Message) × W
start_listening mediator has_tsp alias did acl_mode rounds w =
    let (result, w') = set_mode mediator alias did acl_mode w in listen mediator has_tsp rounds w'
