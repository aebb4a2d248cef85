-- ===== src/Base/HashMap.antt =====
-- A hash map as an association list. Iteration runs in the order of the list: no theorem relies on
-- which order that is.
use mathlib.Core.Path.{◌≡◌, refl}
use mathlib.Core.Bool.{Bool}
use mathlib.Core.Option.{Option, none, some}
use mathlib.Core.List.{List, [], ◌∷◌}
use native.Mathlib.Omega.{arith}
use trust_registry_build_pip.Base.Defs.{PartialEq, ◌==◌, if◌then◌else◌, is_some}

abbrev pub HashMap : Type 0 → Type 0 → Type 0
HashMap K V = List (K × V)

-- `Iterator::find`
unfoldable pub find {ℓ} : {A : Type ℓ} → (A → Bool) → List A → Option A
find p [] = none
find p (x ∷ xs) = if p x then some x else find p xs

abbrev pub keep : {V : Type 0} → (V → Bool) → Option V → Option V
keep p none = none
keep p (some v) = if p v then some v else none

module _ {K V : Type 0} ⦃e : PartialEq K⦄ where
  unfoldable pub get : HashMap K V → K → Option V
  get [] k = none
  get ((j, v) ∷ m) k = if j == k then some v else get m k

  unfoldable pub contains_key : HashMap K V → K → Bool
  unfolding get
  contains_key m k = is_some (get m k)

  -- An old value under the key is replaced.
  unfoldable pub insert : HashMap K V → K → V → HashMap K V
  insert [] k v = (k, v) ∷ []
  insert ((j, w) ∷ m) k v = if j == k then (k, v) ∷ m else (j, w) ∷ insert m k v

  unfoldable pub remove : HashMap K V → K → HashMap K V
  remove [] k = []
  remove ((j, w) ∷ m) k = let rest = remove m k in if j == k then rest else (j, w) ∷ rest

  unfoldable pub retain : (V → Bool) → HashMap K V → HashMap K V
  retain p [] = []
  retain p ((j, w) ∷ m) = let rest = retain p m in if p w then (j, w) ∷ rest else rest

  unfoldable pub values : HashMap K V → List V
  values [] = []
  values ((j, w) ∷ m) = w ∷ values m

  -- No key stands twice.
  abbrev pub Distinct : HashMap K V → Type 0
  Distinct [] = Unit
  Distinct ((j, w) ∷ m) = (get m j ≡ none) × Distinct m

  pub get-insert :
      (m : HashMap K V) (k j : K) (v : V)
      → get (insert m k v) j ≡ (if k == j then some v else get m j)
  unfolding get insert
  get-insert [] k j v = refl
  get-insert ((i, w) ∷ m) k j v =
      ground (arith, get-insert m k j v, e.decides k j, e.decides i k, e.decides i j)

  pub get-remove :
      (m : HashMap K V) (k j : K) → get (remove m k) j ≡ (if k == j then none else get m j)
  unfolding get remove
  get-remove [] k j = ground arith
  get-remove ((i, w) ∷ m) k j =
      ground (arith, get-remove m k j, e.decides k j, e.decides i k, e.decides i j)

  pub get-remove_absent :
      (m : HashMap K V) (k j : K) → get m k ≡ none → get (remove m k) j ≡ get m j
  get-remove_absent m k j h = ground (arith, get-remove m k j, e.decides k j)

  pub get-retain :
      (p : V → Bool) (m : HashMap K V) (k : K) → Distinct m → get (retain p m) k ≡ keep p (get m k)
  unfolding get retain
  get-retain p [] k d = refl
  get-retain p ((i, w) ∷ m) k d = ground (arith, get-retain p m k d.1, e.decides i k)

  pub insert-Distinct : (m : HashMap K V) (k : K) (v : V) → Distinct m → Distinct (insert m k v)
  unfolding get insert
  insert-Distinct [] k v d = (refl, tt)
  insert-Distinct ((i, w) ∷ m) k v d =
      ground (arith, insert-Distinct m k v d.1, get-insert m k i v, e.decides i k, e.decides k i)

  pub remove-Distinct : (m : HashMap K V) (k : K) → Distinct m → Distinct (remove m k)
  unfolding get remove
  remove-Distinct [] k d = tt
  remove-Distinct ((i, w) ∷ m) k d = ground (arith, remove-Distinct m k d.1, get-remove m k i)

  pub retain-Distinct : (p : V → Bool) (m : HashMap K V) → Distinct m → Distinct (retain p m)
  unfolding get retain
  retain-Distinct p [] d = tt
  retain-Distinct p ((i, w) ∷ m) d = ground (arith, retain-Distinct p m d.1, get-retain p m i d.1)

  pub ruleset map_laws = (get-insert, get-remove)
