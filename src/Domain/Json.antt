-- ===== src/Domain/Json.antt =====
-- `serde_json::Value` as the code uses it, and `Context` with `merge_json_values` of
-- trust-registry/src/domain/mod.rs. An object lists its members.
pub mod Merge
use trust_registry_build_pip.Base.{
  ℕ, String, Bool, true, false, Option, none, some, ◌≡◌, if◌then◌else◌, ◌==◌, string_eq,
}

mutual
  pub data Value : Type 0 where
    null : Value
    bool : Bool → Value
    number : ℕ → Value
    string : String → Value
    array : Items → Value
    object : Fields → Value

  pub data Items : Type 0 where
    nil : Items
    cons : Value → Items → Items

  pub data Fields : Type 0 where
    end : Fields
    field : String → Value → Fields → Fields

-- `Map::get`
unfoldable pub lookup : Fields → String → Option Value
lookup end k = none
lookup (field j v m) k = if j == k then some v else lookup m k

-- `Map::remove`, as the map that is left.
unfoldable pub remove : Fields → String → Fields
remove end k = end
remove (field j v m) k = let rest = remove m k in if j == k then rest else field j v rest

-- `Map::insert`
unfoldable pub insert : Fields → String → Value → Fields
insert end k v = field k v end
insert (field j w m) k v = if j == k then field k v m else field j w (insert m k v)

unfoldable mutual
  pub merge_json_values : Value → Value → Value
  merge_json_values (object base_map) (object additional_map) =
      object (merge_members base_map additional_map)
  merge_json_values base additional = additional

  -- the `for` loop over the members of `additional_map`
  pub merge_members : Fields → Fields → Fields
  merge_members base_map end = base_map
  merge_members base_map (field key additional_value rest) =
      let merged_value : Value = elim (lookup base_map key) [
        | none ↦ additional_value
        | some base_value ↦ merge_json_values base_value additional_value
      ] in
      merge_members (insert (remove base_map key) key merged_value) rest

abbrev pub Context : Type 0
Context = Value

unfoldable pub empty : Context
empty = object end

unfoldable pub merge : Context → Context → Context
unfolding merge_json_values
merge self additional = merge_json_values self additional
