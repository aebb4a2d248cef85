-- ===== src/Storage/Fjall/Medium.antt =====
-- What the Fjall storage relies on of a keyspace.
use trust_registry_build_pip.Base.{
  String, List, map, ◌≡◌, ◌↔◌, Option, none, some, is_some, ok, if◌then◌else◌, ◌==◌, string_eq,
}
use trust_registry_build_pip.Storage.KeyValue.{Prefixed, Held}
use trust_registry_build_pip.Storage.Fjall.{Keyspace}

-- A keyspace that answers acts as a map from keys to values, and a scan of a prefix gives the
-- entries under it.
pub record Lawful {V : Type 0} (K : Keyspace V) (Answers : K.State → Type 0)
    (contents : K.State → String → Option V) : Type 0 where
  pub get_answers : (t : String) (s : K.State) → Answers s → K.get t s ≡ ok (contents s t)
  pub contains_answers :
      (t : String) (s : K.State) → Answers s → K.contains_key t s ≡ ok (is_some (contents s t))
  pub insert_answers :
      (t : String) (v : V) (s : K.State)
      → Answers s
      → ((K.insert t v s).0 ≡ ok tt)
        × Answers (K.insert t v s).1
        × ((u : String) → contents (K.insert t v s).1 u ≡ (if t == u then some v else contents s u))
  pub remove_answers :
      (t : String) (s : K.State)
      → Answers s
      → ((K.remove t s).0 ≡ ok tt)
        × Answers (K.remove t s).1
        × ((u : String) → contents (K.remove t s).1 u ≡ (if t == u then none else contents s u))
  pub prefix_answers :
      (p : String) (s : K.State)
      → Answers s
      → (entries : List (String × V)) × (K.prefix p s ≡ map ok entries)
        × ((t : String) (v : V) → Held (t, v) entries ↔ (Prefixed p t × (contents s t ≡ some v)))
