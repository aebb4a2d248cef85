-- ===== src/Capabilities/GitTrust/Definition.antt =====
-- The definition of trust-registry/src/capabilities/git_trust.rs: what the capability registers. A
-- dispatcher is its list of registered types; the types and payloads of the two specs are a crate's.
use trust_registry_build_pip.Base.{String, Option, some, Result, ok, ◌>>=◌, List, ◌∷◌}
use trust_registry_build_pip.Storage.Repository.{Repository}
use trust_registry_build_pip.TrustTasks.Framework.{Framework}
use trust_registry_build_pip.TrustTasks.Router.Dispatch.{Entry}
use trust_registry_build_pip.Capabilities.Set.{
  CapabilityState, CapabilityStateStore, Governance, CapabilityDefinition,
}
use trust_registry_build_pip.Capabilities.GitTrust.{
  authority_of, validate_config, handle_grant, handle_revoke,
}

-- Subject and resource of a payload.
pub record Specs (F : Framework) : Type 0 where
  pub grant : String
  pub revoke : String
  pub grant_payload : F.Document → Result String (String × String)
  pub revoke_payload : F.Document → Result String (String × String)

module _ (F : Framework) (R : Repository) (X : Specs F) (fresh : String) where
  abbrev pub on_grant : Option String → Entry F R.Store
  on_grant authority = (
    X.grant,
    λ doc. X.grant_payload doc >>= λ p. ok (handle_grant F R authority fresh doc p.0 p.1),
  )

  abbrev pub on_revoke : Option String → Entry F R.Store
  on_revoke authority = (
    X.revoke,
    λ doc. X.revoke_payload doc >>= λ p. ok (handle_revoke F R authority fresh doc p.0 p.1),
  )

  abbrev pub register : List (Entry F R.Store) → CapabilityState → List (Entry F R.Store)
  register dispatcher state =
      let authority = authority_of state.config in
      on_revoke authority ∷ on_grant authority ∷ dispatcher

  module _ (on_list on_enable on_disable : Entry F R.Store) where
    -- `on` for the governance types, whose handlers are those of the capability set.
    abbrev pub governance : Governance
    governance = record {
      Dispatcher = List (Entry F R.Store);
      on_list = λ d. on_list ∷ d;
      on_enable = λ d. on_enable ∷ d;
      on_disable = λ d. on_disable ∷ d;
    }

    abbrev pub definition : (S : CapabilityStateStore) → CapabilityDefinition governance S
    definition S = record {
      capability = "git-trust";
      register = register;
      validate_config = some validate_config;
    }
