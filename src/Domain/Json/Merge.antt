-- ===== src/Domain/Json/Merge.antt =====
-- What a merge of two JSON objects holds under each key and each path.
use trust_registry_build_pip.Base.{
  String, List, [], ◌∷◌, Option, none, some, ◌≡◌, refl, arith, inl, inr, Option-cases, Bool, true,
  false, Bool-cases, if◌then◌else◌, ◌==◌, string_eq,
}
use trust_registry_build_pip.Domain.Json.{
  Value, object, Fields, end, field, lookup, remove, insert, merge_json_values, merge_members,
}
use mathlib.Core.Path.{subst}
use text.Mathlib.TextEquality.{eq_iff}

pub lookup-insert :
    (m : Fields) (k j : String) (v : Value)
    → lookup (insert m k v) j ≡ (if k == j then some v else lookup m j)
unfolding lookup insert
lookup-insert end k j v = refl
lookup-insert (field i w m) k j v =
    ground (arith, lookup-insert m k j v, eq_iff k j, eq_iff i k, eq_iff i j)

lookup-remove :
    (m : Fields) (k j : String) → lookup (remove m k) j ≡ (if k == j then none else lookup m j)
unfolding lookup remove
lookup-remove end k j = ground arith
lookup-remove (field i w m) k j =
    ground (arith, lookup-remove m k j, eq_iff k j, eq_iff i k, eq_iff i j)

-- No key of an object stands twice, at any depth.
abbrev mutual
  pub IsMap : Value → Type 0
  IsMap (object m) = IsMapFields m
  IsMap _ = Unit

  pub IsMapFields : Fields → Type 0
  IsMapFields end = Unit
  IsMapFields (field k v m) = (lookup m k ≡ none) × IsMap v × IsMapFields m

-- The value that stands under a key of both, of one or of neither.
abbrev pub merged : Option Value → Option Value → Option Value
merged b none = b
merged none (some a) = some a
merged (some b) (some a) = some (merge_json_values b a)

-- If no key of the additional object stands twice, at any depth, then under each key the merge
-- holds what the two objects hold there, merged.
pub lookup-merge_members :
    (base additional : Fields) (k : String)
    → IsMapFields additional
    → lookup (merge_members base additional) k ≡ merged (lookup base k) (lookup additional k)
unfolding merge_json_values lookup
lookup-merge_members base end k d = refl
lookup-merge_members base (field j v rest) k d = elim (Option-cases (lookup base j)) [
  | inl new ↦ rw new (
      ground (
        arith,
        lookup-merge_members (insert (remove base j) j v) rest k d.2,
        new,
        lookup-insert (remove base j) j k v,
        lookup-remove base j k,
        eq_iff j k,
      ))
  | inr (old, e) ↦ rw e (
      ground (
        arith,
        lookup-merge_members (insert (remove base j) j (merge_json_values old v)) rest k d.2,
        e,
        lookup-insert (remove base j) j k (merge_json_values old v),
        lookup-remove base j k,
        eq_iff j k,
      ))
]

lookup-IsMap : (m : Fields) (k : String) (v : Value) → IsMapFields m → lookup m k ≡ some v → IsMap v
unfolding lookup
lookup-IsMap end k v d e = cc
lookup-IsMap (field j w m) k v d e = elim (Bool-cases (j == k)) [
  | inl here ↦ subst IsMap (ground arith) d.1
  | inr there ↦ lookup-IsMap m k v d.2 (ground arith)
]

abbrev pub and_then : Option Value → (Value → Option Value) → Option Value
and_then none f = none
and_then (some v) f = f v

abbrev pub UnlessNone : Option Value → (Value → Type 0) → Type 0
UnlessNone none P = Unit
UnlessNone (some v) P = P v

-- The value at the end of a path of keys.
unfoldable pub at : List String → Value → Option Value
at [] v = some v
at (k ∷ p) (object m) = and_then (lookup m k) (at p)
at (k ∷ p) _ = none

abbrev pub is_object : Value → Bool
is_object (object m) = true
is_object _ = false

-- Along the path the value is an object up to a key that it lacks.
abbrev pub IsSilent : List String → Value → Type 0
IsSilent [] v = ⊥
IsSilent (k ∷ p) (object m) = UnlessNone (lookup m k) (IsSilent p)
IsSilent (k ∷ p) _ = ⊥

-- If no key of the additional document stands twice, at any depth, then what that document holds
-- at a path is what the merge holds there, unless it is an object.
pub at-merge_override :
    (p : List String) (base additional v : Value)
    → IsMap additional
    → at p additional ≡ some v
    → is_object v ≡ false
    → at p (merge_json_values base additional) ≡ some v
unfolding at merge_json_values
at-merge_override [] (object b) (object a) v d e f = ground arith
at-merge_override (k ∷ p) (object b) (object a) v d e f =
    rw (lookup-merge_members b a k d, at)
      (elim (Option-cases (lookup a k)) [
        | inl gone ↦ ground (arith, gone)
        | inr (x, here) ↦ elim (Option-cases (lookup b k)) [
          | inl new ↦ ground (arith, new, here)
          | inr (y, old) ↦
              rw (here, old)
                (at-merge_override p y x v (lookup-IsMap a k x d here) (ground (arith, here)) f)
        ]
      ])
at-merge_override p base additional v d e f = e

at_silent : (p : List String) (v : Value) → IsSilent p v → at p v ≡ none
unfolding at
at_silent [] v h = elim h [ ]
at_silent (k ∷ p) (object a) h = elim (Option-cases (lookup a k)) [
  | inl gone ↦ rw (gone, at)
  | inr (x, here) ↦ rw (here, at) (at_silent p x (subst (λ o. UnlessNone o (IsSilent p)) here h))
]
at_silent (k ∷ p) v h = elim h [ ]

-- If no key of the additional document stands twice, at any depth, then at a path of which it says
-- nothing the merge holds what the base holds.
pub at-merge_keep :
    (p : List String) (base additional : Value)
    → IsMap additional
    → IsSilent p additional
    → at p (merge_json_values base additional) ≡ at p base
unfolding at merge_json_values
at-merge_keep [] base additional d h = elim h [ ]
at-merge_keep (k ∷ p) (object b) (object a) d h =
    rw (lookup-merge_members b a k d, at)
      (elim (Option-cases (lookup a k)) [
        | inl gone ↦ rw (gone, at)
        | inr (x, here) ↦
            let silent = subst (λ o. UnlessNone o (IsSilent p)) here h in
            elim (Option-cases (lookup b k)) [
              | inl new ↦ rw (here, new, at) (at_silent p x silent)
              | inr (y, old) ↦
                  rw (here, old, at) (at-merge_keep p y x (lookup-IsMap a k x d here) silent)
            ]
      ])
at-merge_keep (k ∷ p) base (object a) d h = at_silent (k ∷ p) (object a) h
at-merge_keep (k ∷ p) base additional d h = elim h [ ]
