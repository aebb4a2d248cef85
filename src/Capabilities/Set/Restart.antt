-- ===== src/Capabilities/Set/Restart.antt =====
-- A set that was started and then run is the one that a restart gives, and it serves what is enabled.
use trust_registry_build_pip.Storage.KeyValue.{Held}
use trust_registry_build_pip.Base.{
  ℕ, String, true, false, ◌≡◌, Option, some, Result, ok, err, List, [], string_eq,
}
use trust_registry_build_pip.Domain.Json.{Value}
use trust_registry_build_pip.Base.HashMap
use trust_registry_build_pip.Base.HashMap.{HashMap}
use trust_registry_build_pip.Capabilities.Set.{
  CapabilityState, States, CapabilityStateStore, Governance, CapabilitySet, CapabilityDefinition,
  compose, collect, new, enable, disable,
}
use trust_registry_build_pip.Capabilities.Set.Enablement.{InStep}

module _ (G : Governance) (S : CapabilityStateStore) where
  -- Started over some disk with the definitions and the base dispatchers, and then run: capabilities
  -- were enabled and disabled, each with success, in some order.
  pub data Runs (available : List (CapabilityDefinition G S)) (base base_query : G.Dispatcher)
      : CapabilitySet G S → Type 0 where
    started :
        (disk : S.Disk) (set : CapabilitySet G S)
        → new G S available disk base base_query ≡ ok set
        → Runs available base base_query set
    enabled :
        (set : CapabilitySet G S)
        → Runs available base base_query set
        → (capability version : String) (config : Option Value) (delegate : Option String) (now : ℕ)
          (entry : CapabilityState)
        → (enable G S capability version config delegate now set).0 ≡ ok entry
        → Runs available base base_query (enable G S capability version config delegate now set).1
    disabled :
        (set : CapabilitySet G S)
        → Runs available base base_query set
        → (capability : String) → (disable G S capability set).0 ≡ ok tt
        → Runs available base base_query (disable G S capability set).1

  -- What no operation changes.
  abbrev fixed :
      CapabilitySet G S → HashMap String (CapabilityDefinition G S) × G.Dispatcher × G.Dispatcher
  fixed set = (set.available, set.base, set.base_query)

  abbrev Started :
      List (CapabilityDefinition G S) → G.Dispatcher → G.Dispatcher → CapabilitySet G S → Type 0
  Started available base base_query set =
      InStep G S set × (fixed set ≡ (collect G S available [], base, base_query))

  abbrev started_set :
      List (CapabilityDefinition G S)
      → G.Dispatcher
      → G.Dispatcher
      → S.Disk
      → States
      → CapabilitySet G S
  started_set available base base_query disk state = record {
    available = collect G S available [];
    state = state;
    store = disk;
    base = base;
    base_query = base_query;
    dispatcher = compose G S base (collect G S available []) state true;
    query_dispatcher = compose G S base_query (collect G S available []) state false;
  }

  abbrev result_or : CapabilitySet G S → Result String (CapabilitySet G S) → CapabilitySet G S
  result_or set (ok s) = s
  result_or set (err e) = set

  -- Both dispatchers have what an enabled capability registers: what its registration gives a dispatcher,
  -- and no registration takes from one, holds of them.
  abbrev pub ServesEnabled : CapabilitySet G S → Type 1
  ServesEnabled set =
      (P : G.Dispatcher → Type 0) (slug : String) (definition : CapabilityDefinition G S)
      (entry : CapabilityState)
      → Held (slug, definition) set.available
      → HashMap.get set.state slug ≡ some entry
      → entry.enabled ≡ true
      → ((d : G.Dispatcher) → P (definition.register d entry))
      → ((other : CapabilityDefinition G S) (e : CapabilityState) (d : G.Dispatcher)
          → P d
          → P (other.register d e))
      → P set.dispatcher × P set.query_dispatcher
