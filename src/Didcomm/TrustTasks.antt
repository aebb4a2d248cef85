-- ===== src/Didcomm/TrustTasks.antt =====
-- trust-registry/src/didcomm/handlers/trust_tasks/mod.rs: Trust Tasks over DIDComm. Decoding, the
-- checks of the framework and the rotation of keys through the VTA are parameters (`Rotation` gives
-- the latter); a state is the message-id store with the handlers' world. The outcome is the document
-- that is sent, if any.
pub mod Access
pub mod Rotation
use trust_registry_build_pip.Base.{
  ℕ, String, Bool, Option, none, some, Result, ok, err, if◌then◌else◌, ◌==◌, string_eq, List,
}
use trust_registry_build_pip.Domain.Json.{Value}
use trust_registry_build_pip.TrustTasks.Framework.{
  Framework, TaskOutcome, Handler, task_failed, malformed_request,
}
use trust_registry_build_pip.TrustTasks.Gate.{Checks, gate}
use trust_registry_build_pip.Dedup.{MessageIdStore, dispatch_idempotent}

pub record HandlerContext : Type 0 where
  pub sender_did : String
  pub my_did : String
  pub admin_dids : List String

-- The readings of the clock at the checks, at the claim of the message id and when it is resolved,
-- and the new id of a rejection.
pub record Arrival : Type 0 where
  pub now : ℕ
  pub claimed_at : ℕ
  pub resolved_at : ℕ
  pub fresh : String

-- What a build without the `vta` feature answers a rotation with.
abbrev pub no_vta : String
no_vta = "DID rotation is unavailable: the Trust Registry was built without the `vta` feature"

-- `configs::vta::rotate_did`, which asks the VTA service, with its request and response types.
pub record Vta (F : Framework) (W : Type 0) : Type 1 where
  pub Request : Type 0
  pub Response : Type 0
  pub parse_request : F.Document → Result String Request
  pub rotate_did : String → Request → W → Result String Response × W
  pub to_value : Response → Value

module _ (F : Framework) {W : Type 0} where
  open F use {Document, reject_with, respond_with}

  -- `rotate` is absent without the `vta` feature.
  unfoldable pub handle_did_rotate : Option (Vta F W) → String → String → Document → Handler F W
  handle_did_rotate none my_did fresh doc w = (err (reject_with doc fresh (task_failed no_vta)), w)
  handle_did_rotate (some vta) my_did fresh doc w = elim (vta.parse_request doc) [
    | err e ↦ (err (reject_with doc fresh (malformed_request e)), w)
    | ok request ↦
        (let (rotated, w') = vta.rotate_did my_did request w in
          (
            elim rotated [
              | ok response ↦ ok (respond_with doc fresh (vta.to_value response))
              | err reason ↦ err (reject_with doc fresh (task_failed reason))
            ],
            w',
          ))
  ]

module _ (F : Framework) (checks : Checks F) (parse : Value → Result String F.Document)
    {W : Type 0} where
  open F use {Document, slug}

  module _ (rotate : Option (Vta F W)) (dispatch : Document → Handler F W)
      (store : MessageIdStore F) where
    abbrev route :
        HandlerContext → Arrival → Document → store.State × W → TaskOutcome F × store.State × W
    route ctx at doc (s, w) =
        if slug doc == "registry/did/rotate"
        then (let (outcome, w') = handle_did_rotate F rotate ctx.my_did at.fresh doc w in
            (outcome, s, w'))
        else dispatch_idempotent F dispatch store at.claimed_at at.resolved_at at.fresh doc (s, w)

    abbrev pub admit :
        HandlerContext
        → Arrival
        → Document
        → Result F.ErrorResponse (Unit {0})
        → store.State × W
        → Option (TaskOutcome F) × store.State × W
    admit ctx at doc (err e) (s, w) = (some (err e), s, w)
    admit ctx at doc (ok _) sw =
        let (outcome, s', w') = route ctx at doc sw in (some outcome, s', w')

    abbrev pub receive :
        HandlerContext
        → Arrival
        → Result String Document
        → store.State × W
        → Option (TaskOutcome F) × store.State × W
    receive ctx at (err e) (s, w) = (none, s, w)
    receive ctx at (ok doc) sw =
        admit ctx at doc
          (gate F checks ctx.admin_dids ctx.my_did ctx.sender_did at.now at.fresh doc) sw

    unfoldable pub handle :
        HandlerContext
        → Arrival
        → Value
        → store.State × W
        → Option (TaskOutcome F) × store.State × W
    handle ctx at body sw = receive ctx at (parse body) sw
