-- ===== src/Capabilities/Governance/Answers.antt =====
-- What the governance handlers promise to whom they answer.
use trust_registry_build_pip.Base.{
  ℕ, String, Bool, true, false, not, ◌≡◌, refl, sym, subst, arith, ◌||◌, Option, none, some, Result,
  ok, err, List, [], ◌∷◌, inl, inr, Bool-cases, ◌==◌, string_eq,
}
use trust_registry_build_pip.Base.HashMap
use trust_registry_build_pip.TrustTasks.Framework.{Framework}
use trust_registry_build_pip.Capabilities.Set.{
  CapabilityState, CapabilityError, States, CapabilityStateStore, Governance, CapabilityDefinition,
  CapabilitySet, is_enabled, enable, list, list_from,
}
use trust_registry_build_pip.Capabilities.Set.Enablement.{InStep, enable-InStep}
use trust_registry_build_pip.Capabilities.Governance.{
  EnablePayload, Texts, handle_enable, enable_answer, config_of, keep_listed, listed,
}

module _ (F : Framework) (G : Governance) (S : CapabilityStateStore) (X : Texts)
    (fresh : String) where
  answered :
      (doc response : F.Document) (capability : String)
      (outcome : Result CapabilityError CapabilityState) (set : CapabilitySet G S)
      → let answer = enable_answer F G S X fresh doc capability (outcome, set) in
        answer.0 ≡ ok response → (entry : CapabilityState) × (outcome ≡ ok entry) × (answer.1 ≡ set)
  answered doc response capability (ok entry) set e = (entry, refl, refl)
  answered doc response capability (err x) set e = ground (arith, e)

  -- The request to enable is answered with a response document only if the capability is then
  -- enabled, the dispatchers are composed of the new state and that state is persisted.
  pub handle_enable-InStep :
      (alive : Bool) (now : ℕ) (doc response : F.Document) (p : EnablePayload)
      (set : CapabilitySet G S)
      → let result = handle_enable F G S X fresh alive now doc p set in
        result.0 ≡ ok response
        → InStep G S result.1
          × ((entry : CapabilityState) × (HashMap.get result.1.state p.capability ≡ some entry)
              × (entry.enabled ≡ true))
  unfolding handle_enable
  handle_enable-InStep false now doc response p set e = ground (arith, e)
  handle_enable-InStep true now doc response p set e =
      let config = config_of F G S X fresh p.config in
      let made = enable G S p.capability p.version config p.delegate now set in
      let done = answered doc response p.capability made.0 made.1 e in
      let (step, there, on) =
        enable-InStep G S p.capability p.version config p.delegate now set done.0 done.1 in
      subst
        (λ (after : CapabilitySet G S).
          InStep G S after
          × ((entry : CapabilityState) × (HashMap.get after.state p.capability ≡ some entry)
              × (entry.enabled ≡ true)))
        (sym done.2) (step, (done.0, there, on))

  -- Every entry of the list is enabled, or none is.
  abbrev pub EachEnabled : Bool → List (CapabilityDefinition G S × Option CapabilityState) → Type 0
  EachEnabled flag [] = Unit
  EachEnabled flag ((d, s) ∷ rest) = (is_enabled G S s ≡ flag) × EachEnabled flag rest

  list_from-Enabled :
      (available : HashMap.HashMap String (CapabilityDefinition G S)) (state : States)
      → EachEnabled true (list_from G S available state false)
  unfolding list_from
  list_from-Enabled [] state = tt
  list_from-Enabled ((slug, d) ∷ rest) state =
      let others = list_from-Enabled rest state in
      elim (Bool-cases (is_enabled G S (HashMap.get state d.capability))) [
        | inl on ↦ rw on (on, others)
        | inr off ↦ rw off others
      ]

  keep_listed-Enabled :
      (status : String) (flag : Bool)
      (entries : List (CapabilityDefinition G S × Option CapabilityState))
      → EachEnabled flag entries
      → EachEnabled flag (keep_listed F G S X fresh status entries)
  unfolding keep_listed
  keep_listed-Enabled status flag [] each = tt
  keep_listed-Enabled status flag ((d, s) ∷ rest) each =
      let others = keep_listed-Enabled status flag rest each.1 in
      elim (Bool-cases (not (status == "available") || not (is_enabled G S s))) [
        | inl kept ↦ rw kept (each.0, others)
        | inr dropped ↦ rw dropped others
      ]

  keep_listed-available :
      (entries : List (CapabilityDefinition G S × Option CapabilityState))
      → EachEnabled false (keep_listed F G S X fresh "available" entries)
  unfolding keep_listed
  keep_listed-available [] = tt
  keep_listed-available ((d, s) ∷ rest) =
      let others = keep_listed-available rest in
      elim (Bool-cases (is_enabled G S s)) [
        | inl on ↦ rw on others
        | inr off ↦ rw off (off, others)
      ]

  -- A list request without a status gets only capabilities that are enabled, and one with the status
  -- `available` only capabilities that are not.
  pub listed-Enabled :
      (set : CapabilitySet G S)
      → EachEnabled true (listed F G S X fresh none set)
        × EachEnabled false (listed F G S X fresh (some "available") set)
  unfolding listed list
  listed-Enabled set = (
    keep_listed-Enabled "enabled" true (list_from G S set.available set.state false)
        (list_from-Enabled set.available set.state),
    keep_listed-available (list_from G S set.available set.state true),
  )
