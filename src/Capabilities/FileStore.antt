-- ===== src/Capabilities/FileStore.antt =====
-- `FileCapabilityStore` of trust-registry/src/capabilities/mod.rs over any file system and JSON.
use trust_registry_build_pip.Base.{
  String, Bool, true, false, ◌≡◌, refl, ap, ◌∙◌, arith, Result, ok, err, map_err, [], ◌∷◌, format,
}
use trust_registry_build_pip.Capabilities.Set.{States, CapabilityStateStore}

-- What reading the file gives; a missing file is told apart from other errors.
pub data FileRead : Type 0 where
  text : String → FileRead
  missing : FileRead
  unreadable : String → FileRead

-- The directory of the store's path: the file, and the temporary file beside it that is renamed over
-- it. What was written and then renamed is what is read.
pub record Directory : Type 1 where
  pub State : Type 0
  pub path : String
  pub has_parent : Bool
  pub read_to_string : State → FileRead
  pub create_dir_all : State → Result String (Unit {0}) × State
  pub write_tmp : String → State → Result String (Unit {0}) × State
  pub rename_tmp : State → Result String (Unit {0}) × State
  pub read-rename :
      (t : String) (s : State)
      → (write_tmp t s).0 ≡ ok tt
      → (rename_tmp (write_tmp t s).1).0 ≡ ok tt
      → read_to_string (rename_tmp (write_tmp t s).1).1 ≡ text t

-- `serde_json` over the states, which reads back what it wrote
pub record Json : Type 0 where
  pub to_text : States → Result String String
  pub from_text : String → Result String States
  pub from_text-to_text : (st : States) (t : String) → to_text st ≡ ok t → from_text t ≡ ok st

module _ (D : Directory) (J : Json) where
  abbrev pub parsed : FileRead → Result String States
  parsed (text t) =
      map_err (λ e. format ("capability state " ∷ D.path ∷ " is corrupt: " ∷ e ∷ []))
        (J.from_text t)
  parsed missing = ok []
  parsed (unreadable e) = err (format ("cannot read capability state " ∷ D.path ∷ ": " ∷ e ∷ []))

  unfoldable pub load : D.State → Result String States
  load s = parsed (D.read_to_string s)

  -- A step of `save`, unless the one before failed
  abbrev pub then_ :
      Result String (Unit {0}) × D.State
      → (D.State → Result String (Unit {0}) × D.State)
      → Result String (Unit {0}) × D.State
  then_ (err e, s) next = (err e, s)
  then_ (ok _, s) next = next s

  abbrev pub parent_made : Bool → D.State → Result String (Unit {0}) × D.State
  parent_made true s = D.create_dir_all s
  parent_made false s = (ok tt, s)

  abbrev pub save_text : Result String String → D.State → Result String (Unit {0}) × D.State
  save_text (err e) s = (err e, s)
  save_text (ok json) s =
      then_ (parent_made D.has_parent s) (λ s. then_ (D.write_tmp json s) D.rename_tmp)

  unfoldable pub save : States → D.State → Result String (Unit {0}) × D.State
  save st s = save_text (J.to_text st) s

  -- What the last two steps left, where they succeeded
  renamed :
      (json : String) (s : D.State) (outcome : Result String (Unit {0}))
      → (D.write_tmp json s).0 ≡ outcome
      → (then_ (outcome, (D.write_tmp json s).1) D.rename_tmp).0 ≡ ok tt
      → D.read_to_string (then_ (outcome, (D.write_tmp json s).1) D.rename_tmp).1 ≡ text json
  renamed json s (err e) w done = ground (arith, done)
  renamed json s (ok tt) w done = D.read-rename json s w done

  parent_then :
      (json : String) (outcome : Result String (Unit {0})) (s : D.State)
      → let last = λ (s : D.State). then_ (D.write_tmp json s) D.rename_tmp in
        (then_ (outcome, s) last).0 ≡ ok tt
        → D.read_to_string (then_ (outcome, s) last).1 ≡ text json
  parent_then json (err e) s done = ground (arith, done)
  parent_then json (ok u) s done = renamed json s (D.write_tmp json s).0 refl done

  saved :
      (st : States) (json : Result String String) (s : D.State)
      → J.to_text st ≡ json
      → (save_text json s).0 ≡ ok tt
      → load (save_text json s).1 ≡ ok st
  unfolding load
  saved st (err e) s written done = ground (arith, done)
  saved st (ok json) s written done =
      let made = parent_made D.has_parent s in
      ap parsed (parent_then json made.0 made.1 done)
      ∙ ap (map_err (λ e. format ("capability state " ∷ D.path ∷ " is corrupt: " ∷ e ∷ [])))
          (J.from_text-to_text st json written)

  -- What a save that succeeded wrote is what the next load reads.
  pub load-save : (st : States) (s : D.State) → (save st s).0 ≡ ok tt → load (save st s).1 ≡ ok st
  unfolding save
  load-save st s done = saved st (J.to_text st) s refl done

  -- `impl CapabilityStateStore for FileCapabilityStore`
  abbrev pub file_store : CapabilityStateStore
  file_store = record { Disk = D.State; load = load; save = save; load-save = load-save }
