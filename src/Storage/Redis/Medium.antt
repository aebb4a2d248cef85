-- ===== src/Storage/Redis/Medium.antt =====
-- What the Redis storage relies on of a connection.
use trust_registry_build_pip.Base.{
  String, ℕ, ◌≤◌, List, ◌≡◌, ◌↔◌, Option, none, some, is_some, ok, if◌then◌else◌, ◌==◌, string_eq,
}
use trust_registry_build_pip.Domain.Key.{tr_sk_prefix}
use trust_registry_build_pip.Storage.KeyValue.{Codec, Prefixed, Held}
use trust_registry_build_pip.Storage.Redis.{Connection}
use trust_registry_build_pip.Storage.Redis.Scan.{Iteration, concat, length}

-- A connection that answers acts as a map from keys to values; `DEL` counts what it removes. A full
-- iteration of `SCAN` returns every key that matches, maybe more than once, and no other; here it
-- takes at most the given rounds.
pub record Lawful {V : Type 0} (K : Connection V) (Answers : K.State → Type 0)
    (contents : K.State → String → Option V) (rounds : K.State → ℕ) (C : Codec V) : Type 0 where
  pub get_answers : (t : String) (s : K.State) → Answers s → K.get t s ≡ ok (contents s t)
  pub exists_answers :
      (t : String) (s : K.State) → Answers s → K.exists t s ≡ ok (is_some (contents s t))
  pub set_answers :
      (t : String) (v : V) (s : K.State)
      → Answers s
      → ((K.set t v s).0 ≡ ok tt)
        × Answers (K.set t v s).1
        × ((u : String) → contents (K.set t v s).1 u ≡ (if t == u then some v else contents s u))
  pub del_answers :
      (t : String) (s : K.State)
      → Answers s
      → ((K.del t s).0 ≡ ok (if is_some (contents s t) then 1 else 0))
        × Answers (K.del t s).1
        × ((u : String) → contents (K.del t s).1 u ≡ (if t == u then none else contents s u))
  pub scan_answers :
      (s : K.State)
      → Answers s
      → (pages : List (List String)) × Iteration C K s 0 pages
        × (length pages ≤ rounds s)
        × ((t : String) (v : V)
            → contents s t ≡ some v
            → Held t (concat pages) ↔ Prefixed tr_sk_prefix t)
