-- ===== src/TrustTasks/Gate.antt =====
-- The checks that a document passes before it is dispatched, which the DIDComm binding
-- (trust-registry/src/didcomm/handlers/trust_tasks/mod.rs) and the TSP binding
-- (trust-registry/src/tsp/mod.rs) make in the same words and the same order.
pub mod Access
use trust_registry_build_pip.Base.{
  ℕ, String, Bool, not, Result, ok, err, map_err, ◌>>=◌, if◌then◌else◌, ◌==◌, string_eq, List, [],
  ◌∷◌, contains, format,
}
use trust_registry_build_pip.TrustTasks.Framework.{
  Framework, RejectReason, proof_required, permission_denied,
}
use trust_registry_build_pip.TrustTasks.Proof.{is_write_slug, verify_write_proof}

-- What the framework's crates check: the parties (the failure is the error response for the sender),
-- freshness and recipient at the time of arrival, and a proof.
pub record Checks (F : Framework) : Type 0 where
  pub resolve_parties : String → String → F.Document → Result F.ErrorResponse (Unit {0})
  pub validate_basic : ℕ → String → F.Document → Result RejectReason (Unit {0})
  pub verify_json : F.Document → Result String (Unit {0})

module _ (F : Framework) where
  open F use {Document, ErrorResponse, slug, has_proof, reject_with}

  unfoldable pub authorize_write : Document → String → List String → Result RejectReason (Unit {0})
  authorize_write doc sender_did admin_dids =
      if not (is_write_slug (slug doc))
      then ok tt
      else if not (has_proof doc)
      then err proof_required
      else if not (contains admin_dids sender_did)
      then err (
          permission_denied
            (format ("DID " ∷ sender_did ∷ " is not authorised to modify the registry" ∷ [])))
      else ok tt

  -- The checks in their order; `fresh` is the new id of a rejection.
  unfoldable pub gate :
      Checks F
      → List String
      → String
      → String
      → ℕ
      → String
      → Document
      → Result ErrorResponse (Unit {0})
  unfolding authorize_write
  gate checks admin_dids my_did sender_did now fresh doc = do
    _ ← checks.resolve_parties my_did sender_did doc
    _ ← map_err (reject_with doc fresh) (checks.validate_basic now my_did doc)
    _ ← map_err (reject_with doc fresh) (authorize_write doc sender_did admin_dids)
    map_err (reject_with doc fresh) (verify_write_proof F checks.verify_json doc)
