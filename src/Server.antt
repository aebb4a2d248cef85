-- ===== src/Server.antt =====
-- trust-registry/src/server.rs: how a running server ends, and what its tasks do to the health report.
-- The exits of the two tasks come in some order; the join waits through them.
use trust_registry_build_pip.Base.{
  String, Bool, true, false, Option, none, some, List, [], ◌∷◌, format, ◌≡◌, ◌↔◌, refl, arith,
  Result, ok, err,
}
use trust_registry_build_pip.Health.{WriteState, mark_writes_unavailable}

-- The result of a task: that of its body, or the error of joining it.
abbrev pub TaskResult : Type 0
TaskResult = Result String (Result String (Unit {0}))

unfoldable pub describe_task_exit : TaskResult → String
describe_task_exit (ok (ok _)) = "didcomm listener exited cleanly"
describe_task_exit (ok (err e)) = format ("didcomm listener failed: " ∷ e ∷ [])
describe_task_exit (err e) = format ("didcomm listener panicked: " ∷ e ∷ [])

-- What the start of the listener returned: its own result within that of joining its task. Its own
-- result is dropped.
unfoldable pub start_didcomm_server :
    Result String (Result String (Unit {0})) → Result String (Unit {0})
start_didcomm_server (err e) = err e
start_didcomm_server (ok outcome) = ok tt

pub data TaskExit : Type 0 where
  http_exit didcomm_exit : TaskResult → TaskExit

-- The wait for the HTTP task: whether it has ended, and the health then.
unfoldable pub await_http : List TaskExit → WriteState → Bool × WriteState
await_http [] health = (false, health)
await_http (http_exit result ∷ exits) health = (true, health)
await_http (didcomm_exit result ∷ exits) health = await_http exits health

-- `select!` over the two tasks
unfoldable pub select_task : List TaskExit → WriteState → Bool × WriteState
unfolding await_http
select_task [] health = (false, health)
select_task (http_exit result ∷ exits) health = (true, health)
select_task (didcomm_exit result ∷ exits) health =
    await_http exits (mark_writes_unavailable (describe_task_exit result) health)

-- The argument says whether a DIDComm task was started.
unfoldable pub join : Bool → List TaskExit → WriteState → Bool × WriteState
join true exits health = select_task exits health
join false exits health = await_http exits health

abbrev pub EndsHttp : List TaskExit → Type 0
EndsHttp [] = ⊥
EndsHttp (http_exit result ∷ exits) = Unit
EndsHttp (didcomm_exit result ∷ exits) = EndsHttp exits

-- The reason of the first exit of the DIDComm task before the HTTP task ends.
abbrev pub stopped_before : List TaskExit → Option TaskResult
stopped_before [] = none
stopped_before (http_exit result ∷ exits) = none
stopped_before (didcomm_exit result ∷ exits) = some result

abbrev pub after_stop : Option TaskResult → WriteState → WriteState
after_stop none health = health
after_stop (some result) health = mark_writes_unavailable (describe_task_exit result) health

await_http-ends :
    (exits : List TaskExit) (health : WriteState)
    → ((await_http exits health).0 ≡ true ↔ EndsHttp exits) × ((await_http exits health).1 ≡ health)
unfolding await_http
await_http-ends [] health = (ground arith, refl)
await_http-ends (http_exit result ∷ exits) health = (ground arith, refl)
await_http-ends (didcomm_exit result ∷ exits) health = await_http-ends exits health

-- Whatever error the listener ends with, the health report says that it exited cleanly.
pub join-listener_outcome_lost :
    (outcome : Result String (Unit {0})) (exits : List TaskExit) (health : WriteState)
    → (join true (didcomm_exit (ok (start_didcomm_server (ok outcome))) ∷ exits) health).1
      ≡ mark_writes_unavailable "didcomm listener exited cleanly" health
unfolding join select_task start_didcomm_server describe_task_exit
join-listener_outcome_lost outcome exits health =
    (await_http-ends exits (mark_writes_unavailable "didcomm listener exited cleanly" health)).1
