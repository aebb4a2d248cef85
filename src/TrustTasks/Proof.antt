-- ===== src/TrustTasks/Proof.antt =====
-- trust-registry/src/trust_tasks/proof.rs: which tasks are writes, and the check of their proofs.
-- The verifier is a parameter.
use trust_registry_build_pip.Base.{
  String, Bool, not, ◌||◌, Result, ok, map_err, List, [], ◌∷◌, contains, string_eq, if◌then◌else◌,
}
use trust_registry_build_pip.TrustTasks.Framework.{Framework, RejectReason, proof_invalid}

abbrev pub write_slugs : List String
write_slugs =
    "registry/record/create" ∷ "registry/record/update" ∷ "registry/record/delete"
    ∷ "registry/did/rotate" ∷ "governance/capability/enable" ∷ "governance/capability/disable"
    ∷ "git-trust/grant" ∷ "git-trust/revoke" ∷ []

unfoldable pub is_write_slug : String → Bool
is_write_slug slug = contains write_slugs slug

module _ (F : Framework) where
  open F use {Document, slug, has_proof}

  unfoldable pub verify_write_proof :
      (Document → Result String (Unit {0})) → Document → Result RejectReason (Unit {0})
  verify_write_proof verify_json doc =
      if not (is_write_slug (slug doc)) || not (has_proof doc)
      then ok tt
      else map_err proof_invalid (verify_json doc)
