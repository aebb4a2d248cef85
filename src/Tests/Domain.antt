-- ===== src/Tests/Domain.antt =====
-- Merges, keys, record types and builders at concrete values.
use trust_registry_build_pip.Base.{◌≡◌, refl, arith, none, some, [], ◌∷◌}
use trust_registry_build_pip.Domain.Json.{
  null, number, object, Fields, end, field, lookup, merge_json_values,
}
use trust_registry_build_pip.Domain.Json.Merge.{at, at-merge_override}
use trust_registry_build_pip.Domain.Builder.{TrustRecordBuilder, filled}
use trust_registry_build_pip.Domain.Key.{TrustRecordKey, IsPlain, sk_inj}
use trust_registry_build_pip.Tests.Fixtures.{trust_record}

abbrev base_members : Fields
base_members =
    field "a" (number 1) (field "b" (object (field "x" (number 2) (field "y" (number 3) end))) end)

abbrev additional_members : Fields
additional_members = field "b" (object (field "x" (number 9) end)) (field "c" null end)

at-merge_override_example :
    at ("b" ∷ "x" ∷ []) (merge_json_values (object base_members) (object additional_members))
    ≡ some (number 9)
unfolding at lookup
at-merge_override_example =
    at-merge_override ("b" ∷ "x" ∷ []) (object base_members) (object additional_members) (number 9)
      (refl, (refl, tt, tt), (refl, tt, tt)) refl refl

abbrev no_action : TrustRecordBuilder
no_action = record (filled trust_record) { action = none; resource = none }

abbrev key : TrustRecordKey
key = record {
  authority_id = "did:a";
  action = "issue";
  resource = "badge";
  entity_id = "did:e#key-1";
}

key-IsPlain : IsPlain key
key-IsPlain = record { authority_id = ground arith; action = ground arith; resource = ground arith }

sk_inj_example : key ≡ record key { entity_id = "did:e#key-1" }
sk_inj_example = sk_inj key (record key { entity_id = "did:e#key-1" }) key-IsPlain key-IsPlain refl
