-- ===== src/Capabilities/Governance.antt =====
-- The governance handlers of trust-registry/src/capabilities/mod.rs. The generated payload types are
-- records; the JSON of a time and of a manifest are parameters, as is whether the set that a handler
-- holds weakly is still there.
pub mod Answers
use trust_registry_build_pip.Base.{
  ℕ, String, Bool, true, false, not, ◌||◌, Option, none, some, unwrap_or, Result, ok, err,
  if◌then◌else◌, ◌==◌, string_eq, List, [], ◌∷◌,
}
use trust_registry_build_pip.Domain.Json.{
  Value, Fields, Items, string, bool, object, array, end, field, nil, cons, insert,
}
use trust_registry_build_pip.TrustTasks.Framework.{
  Framework, RejectReason, internal_error, TaskOutcome, Handler,
}
use trust_registry_build_pip.Capabilities.Set.{
  CapabilityState, CapabilityStateStore, CapabilityError, Governance, CapabilityDefinition,
  CapabilitySet, is_enabled, reject_of, enable, disable, list,
}

pub record EnablePayload : Type 0 where
  pub capability : String
  pub version : String
  pub config : Fields
  pub delegate : Option String

-- The texts of JSON values that are not in the sources: a time, and the manifest of a capability.
pub record Texts : Type 0 where
  pub time_to_value : ℕ → Value
  pub manifest_to_value : String → Value

module _ (F : Framework) (G : Governance) (S : CapabilityStateStore) (X : Texts)
    (fresh : String) where
  open F use {Document, ErrorResponse, respond_with, reject_with}

  -- A `serde_json::Value` always converts to itself.
  abbrev pub respond_json : Document → Value → TaskOutcome F
  respond_json doc value = ok (respond_with doc fresh value)

  abbrev pub refused : Document → CapabilityError → TaskOutcome F
  refused doc e = err (reject_with doc fresh (reject_of e))

  -- `upgraded`: the rejection when the set is gone
  abbrev pub upgraded :
      Bool → Document → Handler F (CapabilitySet G S) → Handler F (CapabilitySet G S)
  upgraded alive doc body set =
      if alive
      then body set
      else (err (reject_with doc fresh (internal_error "capability set is shutting down")), set)

  -- An empty object of configuration counts as none.
  abbrev pub config_of : Fields → Option Value
  config_of end = none
  config_of fields = some (object fields)

  unfoldable pub enabled_body : String → CapabilityState → Value
  unfolding insert
  enabled_body capability entry = object (
      insert
        (insert
          (insert (insert end "capability" (string capability)) "version" (string entry.version))
          "enabled" (bool true))
        "enabledAt" (X.time_to_value entry.enabled_at))

  abbrev pub enable_answer :
      Document
      → String
      → Result CapabilityError CapabilityState × CapabilitySet G S
      → TaskOutcome F × CapabilitySet G S
  enable_answer doc capability (ok entry, set) =
      (respond_json doc (enabled_body capability entry), set)
  enable_answer doc capability (err e, set) = (refused doc e, set)

  unfoldable pub handle_enable : Bool → ℕ → Document → EnablePayload → Handler F (CapabilitySet G S)
  unfolding enabled_body
  handle_enable alive now doc p = upgraded alive doc (λ set.
      enable_answer doc p.capability
        (enable G S p.capability p.version (config_of p.config) p.delegate now set))

  abbrev pub disable_answer :
      Document
      → String
      → Result CapabilityError (Unit {0}) × CapabilitySet G S
      → TaskOutcome F × CapabilitySet G S
  disable_answer doc capability (ok _, set) = (
    respond_json doc
        (object (field "capability" (string capability) (field "enabled" (bool false) end))),
    set,
  )
  disable_answer doc capability (err e, set) = (refused doc e, set)

  unfoldable pub handle_disable : Bool → Document → String → Handler F (CapabilitySet G S)
  handle_disable alive doc capability =
      upgraded alive doc (λ set. disable_answer doc capability (disable G S capability set))

  -- The filter over the listed capabilities for a status
  unfoldable pub keep_listed :
      String
      → List (CapabilityDefinition G S × Option CapabilityState)
      → List (CapabilityDefinition G S × Option CapabilityState)
  keep_listed status [] = []
  keep_listed status ((d, s) ∷ rest) =
      let others = keep_listed status rest in
      if not (status == "available") || not (is_enabled G S s) then (d, s) ∷ others else others

  abbrev pub enabled_at : Fields → Option CapabilityState → Fields
  enabled_at fields none = fields
  enabled_at fields (some state) =
      if state.enabled then insert fields "enabledAt" (X.time_to_value state.enabled_at) else fields

  abbrev pub delegate_of : Option CapabilityState → Option String
  delegate_of none = none
  delegate_of (some state) = state.delegate

  abbrev pub with_delegate : Fields → Option String → Fields
  with_delegate fields none = fields
  with_delegate fields (some delegate) = insert fields "delegate" (string delegate)

  unfoldable pub list_entry : CapabilityDefinition G S × Option CapabilityState → Value
  list_entry (d, s) = object (
      with_delegate
        (enabled_at
          (field "manifest" (X.manifest_to_value d.capability)
            (field "enabled" (bool (is_enabled G S s)) end))
          s)
        (delegate_of s))

  unfoldable pub list_entries : List (CapabilityDefinition G S × Option CapabilityState) → Items
  unfolding list_entry
  list_entries [] = nil
  list_entries (entry ∷ entries) = cons (list_entry entry) (list_entries entries)

  -- The capabilities that a list request with this status, in lower case, gets.
  unfoldable pub listed :
      Option String → CapabilitySet G S → List (CapabilityDefinition G S × Option CapabilityState)
  unfolding keep_listed
  listed requested set =
      let status = unwrap_or requested "enabled" in
      keep_listed status (list G S (not (status == "enabled")) set)

  unfoldable pub handle_list : Bool → Document → Option String → Handler F (CapabilitySet G S)
  unfolding listed list_entries
  handle_list alive doc requested = upgraded alive doc (λ set. (
    respond_json doc
        (object (field "capabilities" (array (list_entries (listed requested set))) end)),
    set,
  ))
