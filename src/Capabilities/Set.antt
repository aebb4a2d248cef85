-- ===== src/Capabilities/Set.antt =====
-- trust-registry/src/capabilities/mod.rs: the enablement of capabilities, its persistence, and the
-- dispatchers that it yields. Dispatchers come from the crate `trust_tasks_rs`: their type, the three
-- governance registrations and those of a capability are parameters.
pub mod Enablement
pub mod Restart
use trust_registry_build_pip.Base.{
  ℕ, String, Bool, true, false, ◌≡◌, Option, none, some, unwrap_or, Result, ok, err, map_err, ok_or,
  ◌>>=◌, if◌then◌else◌, List, [], ◌∷◌, string_eq,
}
use trust_registry_build_pip.Base.HashMap
use trust_registry_build_pip.Base.HashMap.{HashMap}
use trust_registry_build_pip.Domain.Json.{Value, object, end}
use trust_registry_build_pip.TrustTasks.Framework.{
  RejectReason, malformed_request, task_failed, internal_error,
}
use trust_registry_build_pip.Base.{format}

pub record CapabilityState : Type 0 where
  pub version : String
  pub enabled : Bool
  pub config : Option Value
  pub enabled_at : ℕ
  pub delegate : Option String

abbrev pub States : Type 0
States = HashMap String CapabilityState

-- `CapabilityStateStore`. What a save has written is what the next load reads.
pub record CapabilityStateStore : Type 1 where
  pub Disk : Type 0
  pub load : Disk → Result String States
  pub save : States → Disk → Result String (Unit {0}) × Disk
  pub load-save : (st : States) (d : Disk) → (save st d).0 ≡ ok tt → load (save st d).1 ≡ ok st

-- `MemoryCapabilityStore`
abbrev pub memory_store : CapabilityStateStore
memory_store = record {
  Disk = States;
  load = λ d. ok d;
  save = λ st d. (ok tt, st);
  load-save = λ st d e i. ok st;
}

pub data CapabilityError : Type 0 where
  unknown_capability already_enabled not_enabled : CapabilityError
  config_invalid storage : String → CapabilityError

-- `reject_of`: the reason that a handler answers with.
unfoldable pub reject_of : CapabilityError → RejectReason
reject_of unknown_capability =
    task_failed "unknown_capability: not built into this host and no manifest supplied"
reject_of already_enabled =
    task_failed "already_enabled: the capability is already enabled for this community"
reject_of not_enabled = task_failed "not_enabled: the capability is not currently enabled"
reject_of (config_invalid detail) = malformed_request (format ("config_invalid: " ∷ detail ∷ []))
reject_of (storage detail) = internal_error detail

-- The dispatcher type with the registrations of `governance/capability/{list,enable,disable}`.
pub record Governance : Type 1 where
  pub Dispatcher : Type 0
  pub on_list : Dispatcher → Dispatcher
  pub on_enable : Dispatcher → Dispatcher
  pub on_disable : Dispatcher → Dispatcher

module _ (G : Governance) (S : CapabilityStateStore) where
  open G use {Dispatcher, on_list, on_enable, on_disable}
  open S use {Disk}

  -- The manifest counts by the name of its capability.
  pub record CapabilityDefinition : Type 0 where
    pub capability : String
    pub register : Dispatcher → CapabilityState → Dispatcher
    pub validate_config : Option (Value → Result String (Unit {0}))

  pub record CapabilitySet : Type 0 where
    pub available : HashMap String CapabilityDefinition
    pub state : States
    pub store : Disk
    pub base : Dispatcher
    pub base_query : Dispatcher
    pub dispatcher : Dispatcher
    pub query_dispatcher : Dispatcher

  abbrev pub is_enabled : Option CapabilityState → Bool
  is_enabled none = false
  is_enabled (some s) = s.enabled

  unfoldable pub register_if :
      Option CapabilityState → CapabilityDefinition → Dispatcher → Dispatcher
  register_if none definition dispatcher = dispatcher
  register_if (some entry) definition dispatcher =
      if entry.enabled then definition.register dispatcher entry else dispatcher

  -- In the order of insertion, where the map of the source goes by key: the types that two capabilities
  -- register differ.
  unfoldable pub register_all :
      HashMap String CapabilityDefinition → States → Dispatcher → Dispatcher
  register_all [] state dispatcher = dispatcher
  register_all ((slug, definition) ∷ rest) state dispatcher =
      register_all rest state (register_if (HashMap.get state slug) definition dispatcher)

  unfoldable pub compose :
      Dispatcher → HashMap String CapabilityDefinition → States → Bool → Dispatcher
  unfolding register_all register_if
  compose base available state admin =
      let listed = on_list base in
      register_all available state (if admin then on_disable (on_enable listed) else listed)

  unfoldable pub collect :
      List CapabilityDefinition
      → HashMap String CapabilityDefinition
      → HashMap String CapabilityDefinition
  collect [] m = m
  collect (d ∷ ds) m = collect ds (HashMap.insert m d.capability d)

  unfoldable pub new :
      List CapabilityDefinition → Disk → Dispatcher → Dispatcher → Result String CapabilitySet
  unfolding collect
  new available store base base_query = do
    state ← S.load store
    let by_name = collect available []
    ok (record {
      available = by_name;
      state = state;
      store = store;
      base = base;
      base_query = base_query;
      dispatcher = compose base by_name state true;
      query_dispatcher = compose base_query by_name state false;
    })

  unfoldable pub rebuild : CapabilitySet → CapabilitySet
  unfolding compose
  rebuild set = record set {
    dispatcher = compose set.base set.available set.state true;
    query_dispatcher = compose set.base_query set.available set.state false;
  }

  abbrev accepts : CapabilityDefinition → Option Value → Result CapabilityError (Unit {0})
  accepts definition config = elim definition.validate_config [
    | none ↦ ok tt
    | some validate ↦ map_err config_invalid (validate (unwrap_or config (object end)))
  ]

  abbrev pub saved_or :
      {A : Type 0}
      → A
      → Result String (Unit {0})
      → CapabilitySet
      → Result CapabilityError A × CapabilitySet
  saved_or a (err e) set = (err (storage e), set)
  saved_or a (ok _) set = (ok a, rebuild set)

  -- Save the state, and swap the dispatchers only if it was saved.
  abbrev pub commit : {A : Type 0} → A → CapabilitySet → Result CapabilityError A × CapabilitySet
  commit a set =
      let (saved, disk) = S.save set.state set.store in
      saved_or a saved (record set { store = disk })

  abbrev pub enabled_entry : String → Option Value → ℕ → Option String → CapabilityState
  enabled_entry version config now delegate = record {
    version = version;
    enabled = true;
    config = config;
    enabled_at = now;
    delegate = delegate;
  }

  abbrev pub lookup_definition :
      String → Option Value → CapabilitySet → Result CapabilityError (Unit {0})
  lookup_definition capability config set = do
    definition ← ok_or (HashMap.get set.available capability) unknown_capability
    accepts definition config

  -- an early return by `?`
  abbrev pub when_ok :
      {A : Type 0}
      → Result CapabilityError (Unit {0})
      → CapabilitySet
      → Result CapabilityError A × CapabilitySet
      → Result CapabilityError A × CapabilitySet
  when_ok (err e) set rest = (err e, set)
  when_ok (ok _) set rest = rest

  unfoldable pub enable :
      String
      → String
      → Option Value
      → Option String
      → ℕ
      → CapabilitySet
      → Result CapabilityError CapabilityState × CapabilitySet
  enable capability version config delegate now set =
      let entry = enabled_entry version config now delegate in
      when_ok (lookup_definition capability config set) set (
        if is_enabled (HashMap.get set.state capability)
        then (err already_enabled, set)
        else commit entry (record set { state = HashMap.insert set.state capability entry }))

  abbrev pub disable_entry :
      String
      → Option CapabilityState
      → CapabilitySet
      → Result CapabilityError (Unit {0}) × CapabilitySet
  disable_entry capability none set = (err not_enabled, set)
  disable_entry capability (some entry) set =
      if entry.enabled
      then commit tt (record set {
        state = HashMap.insert set.state capability (record entry { enabled = false });
      })
      else (err not_enabled, set)

  unfoldable pub disable :
      String → CapabilitySet → Result CapabilityError (Unit {0}) × CapabilitySet
  disable capability set = disable_entry capability (HashMap.get set.state capability) set

  -- The listed capabilities, by their definitions.
  unfoldable pub list_from :
      HashMap String CapabilityDefinition
      → States
      → Bool
      → List (CapabilityDefinition × Option CapabilityState)
  list_from [] state include_available = []
  list_from ((slug, d) ∷ rest) state include_available =
      let s = HashMap.get state d.capability in
      let others = list_from rest state include_available in
      if is_enabled s
      then (d, s) ∷ others
      else (if include_available then (d, s) ∷ others else others)

  unfoldable pub list : Bool → CapabilitySet → List (CapabilityDefinition × Option CapabilityState)
  unfolding list_from
  list include_available set = list_from set.available set.state include_available
