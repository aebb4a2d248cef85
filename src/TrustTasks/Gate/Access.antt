-- ===== src/TrustTasks/Gate/Access.antt =====
-- Which writes pass the gate.
use trust_registry_build_pip.Base.{
  ℕ, String, true, false, ◌≡◌, ◌↔◌, ◌⊎◌, arith, ok, List, contains, string_eq,
}
use trust_registry_build_pip.TrustTasks.Framework.{Framework}
use trust_registry_build_pip.TrustTasks.Proof.{is_write_slug, verify_write_proof}
use trust_registry_build_pip.TrustTasks.Gate.{Checks, gate}

module _ (F : Framework) (checks : Checks F) (admin_dids : List String) (my_did sender_did : String)
    (now : ℕ) (fresh : String) (doc : F.Document) where
  open F use {slug, has_proof}

  -- The sender is an admin, and the document has a proof that verifies.
  abbrev pub IsAuthorized : Type 0
  IsAuthorized =
      (has_proof doc ≡ true)
      × (contains admin_dids sender_did ≡ true)
      × (checks.verify_json doc ≡ ok tt)

  -- A document passes the gate exactly if its parties are consistent, it is fresh and meant for us,
  -- and, if it is a write, the sender is an admin and the document has a proof that verifies.
  pub gate_open : (gate F checks admin_dids my_did sender_did now fresh doc ≡ ok tt) ↔ (
      (checks.resolve_parties my_did sender_did doc ≡ ok tt)
      × (checks.validate_basic now my_did doc ≡ ok tt)
      × ((is_write_slug (slug doc) ≡ false) ⊎ IsAuthorized))
  unfolding gate verify_write_proof
  gate_open = ground arith
