-- ===== src/Domain/RecordType.antt =====
-- `TrustRecordError` and `RecordType` of trust-registry/src/domain/mod.rs. `to_lowercase` is modelled
-- on ASCII letters: no other letter has one of the letters of the two names as its lower case, so
-- the comparisons have the same outcome.
use trust_registry_build_pip.Base.{
  ℕ, String, List, ◌≡◌, ◌↔◌, ◌≢◌, arith, map, if◌then◌else◌, ◌==◌, Result, ok, err,
}
use trust_registry_build_pip.Base.Strings.{codes, codes_eq, codes_beq_iff, to_lower}

pub data TrustRecordError : Type 0 where
  missing_entity_id missing_authority_id missing_action missing_resource : TrustRecordError
  missing_time_requested missing_time_evaluated : TrustRecordError
  missing_record_type invalid_record_type : TrustRecordError

-- `Display` of the error
pub error_to_string : TrustRecordError → String
error_to_string missing_entity_id = "Entity ID is required"
error_to_string missing_authority_id = "Authority ID is required"
error_to_string missing_action = "Action is required"
error_to_string missing_resource = "Resource is required"
error_to_string missing_time_requested = "Time requested is required"
error_to_string missing_time_evaluated = "Time evaluated is required"
error_to_string missing_record_type = "Record type is required"
error_to_string invalid_record_type = "Record type is invalid"

pub data RecordType : Type 0 where
  authorization recognition : RecordType

abbrev to_lowercase : String → List ℕ
to_lowercase s = map to_lower (codes s)

unfoldable pub from_str : String → Result TrustRecordError RecordType
from_str s =
    if to_lowercase s == codes "authorization"
    then ok authorization
    else if to_lowercase s == codes "recognition"
    then ok recognition
    else err invalid_record_type

-- `Display` of the type
unfoldable pub to_string : RecordType → String
to_string authorization = "authorization"
to_string recognition = "recognition"

-- Parsing yields a type exactly for the texts that are its printed name in any letter case.
pub from_str-to_string :
    (s : String) (t : RecordType)
    → (from_str s ≡ ok t) ↔ (map to_lower (codes s) ≡ codes (to_string t))
unfolding from_str to_string
from_str-to_string s authorization = ground (
  arith,
  codes_beq_iff (to_lowercase s) (codes "authorization"),
  codes_beq_iff (to_lowercase s) (codes "recognition"),
)
from_str-to_string s recognition = ground (
  arith,
  codes_beq_iff (to_lowercase s) (codes "authorization"),
  codes_beq_iff (to_lowercase s) (codes "recognition"),
)

-- Any other text is refused.
pub from_str_invalid :
    (s : String)
    → ((t : RecordType) → map to_lower (codes s) ≢ codes (to_string t))
    → from_str s ≡ err invalid_record_type
unfolding from_str to_string
from_str_invalid s h = ground (
  arith,
  h authorization,
  h recognition,
  codes_beq_iff (to_lowercase s) (codes "authorization"),
  codes_beq_iff (to_lowercase s) (codes "recognition"),
)
