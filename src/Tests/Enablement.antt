-- ===== src/Tests/Enablement.antt =====
-- A capability that is enabled, disabled and restored, over a store that saves and over one that does
-- not.
use trust_registry_build_pip.Base.{
  String, true, ◌≡◌, refl, none, some, Result, ok, err, List, [], ◌∷◌, string_eq,
}
use trust_registry_build_pip.Base.HashMap
use trust_registry_build_pip.Capabilities.Set.{
  CapabilityState, States, CapabilityStateStore, memory_store, already_enabled, Governance,
  CapabilityDefinition, CapabilitySet, is_enabled, compose, new, collect, enable,
}
use trust_registry_build_pip.Capabilities.Set.Enablement.{
  InStep, enable-InStep, enable_unsaved_stuck,
}
use trust_registry_build_pip.Capabilities.Set.Restart.{Runs, started, enabled}

-- A dispatcher lists what is registered with it.
abbrev governance : Governance
governance = record {
  Dispatcher = List String;
  on_list = λ d. "list" ∷ d;
  on_enable = λ d. "enable" ∷ d;
  on_disable = λ d. "disable" ∷ d;
}

abbrev unsaved : Result String (Unit {0})
unsaved = err "disk full"

abbrev nothing : Result String States
nothing = ok []

unsaved-nothing : (st : States) (d : Unit {0}) → unsaved ≡ ok tt → nothing ≡ ok st
unsaved-nothing st d e = cc

abbrev failing_store : CapabilityStateStore
failing_store = record {
  Disk = Unit {0};
  load = λ d. nothing;
  save = λ st d. (unsaved, d);
  load-save = unsaved-nothing;
}

abbrev definition : (S : CapabilityStateStore) → CapabilityDefinition governance S
definition S = record {
  capability = "git-trust";
  register = λ d s. "grant" ∷ d;
  validate_config = none;
}

abbrev idle : (S : CapabilityStateStore) → S.Disk → CapabilitySet governance S
idle S disk = record {
  available = ("git-trust", definition S) ∷ [];
  state = [];
  store = disk;
  base = [];
  base_query = [];
  dispatcher = "disable" ∷ "enable" ∷ "list" ∷ [];
  query_dispatcher = "list" ∷ [];
}

abbrev on : CapabilityState
on = record { version = "0.1"; enabled = true; config = none; enabled_at = 7; delegate = none }

enable-InStep_example :
    let result =
      enable governance memory_store "git-trust" "0.1" none none 7 (idle memory_store []) in
    InStep governance memory_store result.1
    × (HashMap.get result.1.state "git-trust" ≡ some on)
    × (on.enabled ≡ true)
unfolding enable HashMap.get
enable-InStep_example =
    enable-InStep governance memory_store "git-trust" "0.1" none none 7 (idle memory_store []) on
      refl

first :
    new governance memory_store (definition memory_store ∷ []) [] [] [] ≡ ok (idle memory_store [])
unfolding new collect HashMap.insert compose HashMap.get
first = refl

run :
    Runs governance memory_store
      (definition memory_store ∷ [])
      []
      []
      (enable governance memory_store "git-trust" "0.1" none none 7 (idle memory_store [])).1
unfolding enable HashMap.get
run =
    enabled (idle memory_store []) (started [] (idle memory_store []) first) "git-trust" "0.1" none
      none 7 on refl

enable_unsaved_stuck_example :
    let set = idle failing_store tt in
    let failed = enable governance failing_store "git-trust" "0.1" none none 7 set in
    (failed.1.dispatcher ≡ set.dispatcher)
    × (failed.1.query_dispatcher ≡ set.query_dispatcher)
    × (is_enabled governance failing_store (HashMap.get failed.1.state "git-trust") ≡ true)
    × (enable governance failing_store "git-trust" "0.1" none none 9 failed.1
        ≡ (err already_enabled, failed.1))
unfolding enable HashMap.get
enable_unsaved_stuck_example =
    enable_unsaved_stuck governance failing_store "git-trust" "0.1" "0.1" none none none none 7 9
      (idle failing_store tt) "disk full" refl refl
