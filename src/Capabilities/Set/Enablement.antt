-- ===== src/Capabilities/Set/Enablement.antt =====
-- Enabling and disabling keep the dispatchers in step with the persisted state.
use trust_registry_build_pip.Base.{
  ℕ, String, true, false, ◌≡◌, ◌≢◌, refl, sym, ap, subst, ◌∙◌, arith, Option, none, some, Result,
  ok, err, if◌then◌else◌, ◌==◌, List, [], string_eq, inl, inr, Result-cases, Bool-cases,
}
use trust_registry_build_pip.Domain.Json.{Value}
use text.Mathlib.TextEquality.{eq_iff}
use trust_registry_build_pip.Base.HashMap
use trust_registry_build_pip.Base.HashMap.{get-insert}
use trust_registry_build_pip.Capabilities.Set.{
  CapabilityState, States, CapabilityStateStore, CapabilityError, not_enabled, already_enabled,
  storage, Governance, CapabilitySet, is_enabled, compose, new, rebuild, saved_or, commit,
  lookup_definition, disable_entry, collect, CapabilityDefinition, enable, disable, enabled_entry,
}

module _ (G : Governance) (S : CapabilityStateStore) where
  -- The live dispatchers serve what the state says, and the store holds that state.
  pub record InStep (set : CapabilitySet G S) : Type 0 where
    pub serves : set.dispatcher ≡ compose G S set.base set.available set.state true
    pub answers : set.query_dispatcher ≡ compose G S set.base_query set.available set.state false
    pub persisted : S.load set.store ≡ ok set.state

  saved_or-InStep :
      {A : Type 0} (a b : A) (saved : Result String (Unit {0})) (set : CapabilitySet G S)
      → (saved ≡ ok tt → S.load set.store ≡ ok set.state)
      → (saved_or G S a saved set).0 ≡ ok b
      → InStep (saved_or G S a saved set).1
        × (a ≡ b)
        × ((saved_or G S a saved set).1.state ≡ set.state)
  unfolding rebuild
  saved_or-InStep a b (err e) set h s = cc
  saved_or-InStep a b (ok tt) set h s =
      (record { serves = refl; answers = refl; persisted = h refl }, cc, refl)

  commit-InStep :
      {A : Type 0} (a b : A) (set : CapabilitySet G S)
      → (commit G S a set).0 ≡ ok b
      → InStep (commit G S a set).1 × (a ≡ b) × ((commit G S a set).1.state ≡ set.state)
  commit-InStep a b set e = saved_or-InStep a b _ _ (S.load-save set.state set.store) e

  inserted :
      (m : States) (k : String) (c : CapabilityState)
      → HashMap.get (HashMap.insert m k c) k ≡ some c
  inserted m k c = ground (arith, get-insert m k k c, eq_iff k k)

  -- An enabling that succeeds leaves the capability enabled, the dispatchers composed of the new state
  -- and that state persisted.
  pub enable-InStep :
      (capability version : String) (config : Option Value) (delegate : Option String) (now : ℕ)
      (set : CapabilitySet G S) (entry : CapabilityState)
      → let result = enable G S capability version config delegate now set in
        result.0 ≡ ok entry
        → InStep result.1
          × (HashMap.get result.1.state capability ≡ some entry)
          × (entry.enabled ≡ true)
  unfolding enable
  enable-InStep capability version config delegate now set entry e =
      let made = enabled_entry G S version config now delegate in
      elim (Result-cases (lookup_definition G S capability config set)) [
        | inl (x, bad) ↦ absurd (ground (arith, bad))
        | inr (u, fine) ↦ elim (Bool-cases (is_enabled G S (HashMap.get set.state capability))) [
          | inl on ↦ absurd (ground (arith, fine, on))
          | inr off ↦
              (let next = record set { state = HashMap.insert set.state capability made } in
                let (step, same, kept) = commit-InStep made entry next (rw (fine, off) at e) in
                rw (fine, off)
                  (
                    step,
                    ap (λ (m : States). HashMap.get m capability) kept
                        ∙ inserted set.state capability made
                        ∙ ap some same,
                    ap (λ (c : CapabilityState). c.enabled) (sym same),
                  ))
        ]
      ]

  disable_entry-InStep :
      (capability : String) (found : Option CapabilityState) (set : CapabilitySet G S)
      → let result = disable_entry G S capability found set in
        result.0 ≡ ok tt
        → InStep result.1
          × ((entry : CapabilityState) × (found ≡ some entry)
              × (entry.enabled ≡ true)
              × (result.1.state
                  ≡ HashMap.insert set.state capability (record entry { enabled = false })))
  disable_entry-InStep capability none set e = cc
  disable_entry-InStep capability (some entry) set e = elim (Bool-cases entry.enabled) [
    | inr off ↦ absurd (ground (arith, off))
    | inl on ↦
        let next = record set {
          state = HashMap.insert set.state capability (record entry { enabled = false });
        } in
        let other : Result CapabilityError (Unit {0}) × CapabilitySet G S =
          (err not_enabled, set) in
        let taken : disable_entry G S capability (some entry) set ≡ commit G S tt next =
          ap (λ b. if b then commit G S tt next else other) on in
        let (step, same, kept) = commit-InStep tt tt next (sym (ap (λ r. r.0) taken) ∙ e) in
        (
          subst (λ (r : Result CapabilityError (Unit {0}) × CapabilitySet G S). InStep r.1)
              (sym taken) step,
          (entry, refl, on, ap (λ r. r.1.state) taken ∙ kept),
        )
  ]

  -- A disabling that succeeds keeps the entry of the capability but for its flag and leaves every other
  -- entry as it is, with the dispatchers composed of the new state and that state persisted.
  pub disable-InStep :
      (capability : String) (set : CapabilitySet G S)
      → let result = disable G S capability set in
        result.0 ≡ ok tt
        → InStep result.1
          × ((entry : CapabilityState) × (HashMap.get set.state capability ≡ some entry)
              × (entry.enabled ≡ true)
              × ((j : String)
                  → HashMap.get result.1.state j ≡ (
                      if capability == j
                      then some (record entry { enabled = false })
                      else HashMap.get set.state j)))
  unfolding disable
  disable-InStep capability set e =
      let (step, (entry, found, on, kept)) =
        disable_entry-InStep capability (HashMap.get set.state capability) set e in
      (
        step,
        (
          entry,
          found,
          on,
          λ j.
              ap (λ (m : States). HashMap.get m j) kept
              ∙ get-insert set.state capability j (record entry { enabled = false }),
        ),
      )

  -- A restart over the store of a set in step builds that set again.
  pub restart-InStep :
      (available : List (CapabilityDefinition G S)) (set : CapabilitySet G S)
      → InStep set
      → collect G S available [] ≡ set.available
      → new G S available set.store set.base set.base_query ≡ ok set
  unfolding new
  restart-InStep available set h same = ground (arith, h.serves, h.answers, h.persisted)

  saved_or_err :
      {A : Type 0} (a : A) (saved : Result String (Unit {0})) (set : CapabilitySet G S)
      (e : CapabilityError)
      → (saved_or G S a saved set).0 ≡ err e
      → (saved_or G S a saved set).1 ≡ set
  saved_or_err a (err x) set e h = refl
  saved_or_err a (ok u) set e h = cc

  lookup_definition_error :
      (capability : String) (config : Option Value) (set : CapabilitySet G S) (e : String)
      → lookup_definition G S capability config set ≢ err (storage e)
  lookup_definition_error capability config set e h = ground arith

  enable_enabled :
      (capability version : String) (config : Option Value) (delegate : Option String) (now : ℕ)
      (set : CapabilitySet G S) (c : CapabilityState)
      → lookup_definition G S capability config set ≡ ok tt
      → HashMap.get set.state capability ≡ some c
      → c.enabled ≡ true
      → enable G S capability version config delegate now set ≡ (err already_enabled, set)
  unfolding enable
  enable_enabled capability version config delegate now set c fine found on = rw (fine, found, on)

  -- An enabling whose save fails has already changed the state in memory: the capability counts as
  -- enabled while both dispatchers are those of before, and a later enabling of the capability with a
  -- configuration that is accepted is refused as already enabled.
  pub enable_unsaved_stuck :
      (capability version again : String) (config config' : Option Value)
      (delegate delegate' : Option String) (now now' : ℕ) (set : CapabilitySet G S) (e : String)
      → let failed = enable G S capability version config delegate now set in
        failed.0 ≡ err (storage e)
        → lookup_definition G S capability config' set ≡ ok tt
        → (failed.1.dispatcher ≡ set.dispatcher)
          × (failed.1.query_dispatcher ≡ set.query_dispatcher)
          × (is_enabled G S (HashMap.get failed.1.state capability) ≡ true)
          × (enable G S capability again config' delegate' now' failed.1
              ≡ (err already_enabled, failed.1))
  unfolding enable
  enable_unsaved_stuck capability version again config config' delegate delegate' now now' set e h
        fine =
      let made = enabled_entry G S version config now delegate in
      let next : CapabilitySet G S = record set {
        state = HashMap.insert set.state capability made;
      } in
      elim (Result-cases (lookup_definition G S capability config set)) [
        | inl (x, bad) ↦
            absurd (lookup_definition_error capability config set e (ground (arith, bad)))
        | inr (u, good) ↦ elim (Bool-cases (is_enabled G S (HashMap.get set.state capability))) [
          | inl on ↦ absurd (ground (arith, good, on))
          | inr off ↦
              let left =
                saved_or_err made _ (record next { store = (S.save next.state set.store).1 })
                  (storage e) (rw (good, off) at h) in
              let there =
                ap (λ (t : CapabilitySet G S). HashMap.get t.state capability) left
                ∙ inserted set.state capability made in
              rw (good, off)
                (
                  ap (λ (t : CapabilitySet G S). t.dispatcher) left,
                  ap (λ (t : CapabilitySet G S). t.query_dispatcher) left,
                  ap (is_enabled G S) there,
                  enable_enabled capability again config' delegate' now' _ made
                      (subst (λ t. lookup_definition G S capability config' t ≡ ok tt) (sym left)
                        fine)
                      there refl,
                )
        ]
      ]
