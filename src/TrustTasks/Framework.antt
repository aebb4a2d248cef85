-- ===== src/TrustTasks/Framework.antt =====
-- The crate `trust_tasks_rs`, of which the registry uses documents and error responses: a parameter,
-- with what its specification says of the retry flag. `RejectReason` lists the reasons that the
-- registry raises.
use trust_registry_build_pip.Base.{String, Bool, true, false, Option, ◌≡◌, Result}
use trust_registry_build_pip.Domain.Json.{Value}

pub data RejectReason : Type 0 where
  malformed_request task_failed internal_error permission_denied proof_invalid :
      String → RejectReason
  proof_required : RejectReason

-- SPEC 8.4: of these reasons only an internal error is transient.
abbrev pub default_retryable : RejectReason → Bool
default_retryable (internal_error reason) = true
default_retryable _ = false

pub record Framework : Type 1 where
  pub Document : Type 0
  pub ErrorResponse : Type 0
  pub id : Document → String
  pub issuer : Document → Option String
  pub slug : Document → String
  pub has_proof : Document → Bool
  pub respond_with : Document → String → Value → Document
  pub reject_with : Document → String → RejectReason → ErrorResponse
  pub retryable : ErrorResponse → Bool
  pub with_retryable : ErrorResponse → Bool → ErrorResponse
  pub retryable-with_retryable :
      (e : ErrorResponse) (flag : Bool) → retryable (with_retryable e flag) ≡ flag
  pub retryable-reject_with :
      (doc : Document) (id : String) (reason : RejectReason)
      → retryable (reject_with doc id reason) ≡ default_retryable reason

-- `TaskOutcome` of trust_tasks/router.rs
abbrev pub TaskOutcome : Framework → Type 0
TaskOutcome F = Result F.ErrorResponse F.Document

-- A handler over a shared world, such as a repository's store.
abbrev pub Handler : Framework → Type 0 → Type 0
Handler F W = W → TaskOutcome F × W
