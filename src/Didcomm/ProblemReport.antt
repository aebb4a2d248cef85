-- ===== src/Didcomm/ProblemReport.antt =====
-- trust-registry/src/didcomm/problem_report.rs: problem reports and their bodies.
use trust_registry_build_pip.Base.{String, Option, none, some, List, [], ◌∷◌}
use trust_registry_build_pip.Domain.Json.{
  Value, Items, nil, cons, string, array, object, Fields, field, end, insert,
}

abbrev pub error_unauthorized : String
error_unauthorized = "e.p.msg.unauthorized"

abbrev pub error_bad_request : String
error_bad_request = "e.p.msg.bad-request"

abbrev pub error_not_found : String
error_not_found = "e.p.msg.not-found"

abbrev pub error_conflict : String
error_conflict = "e.p.msg.conflict"

abbrev pub error_internal : String
error_internal = "e.p.msg.internal-error"

pub record ProblemReport : Type 0 where
  pub code : String
  pub comment : String
  pub args : Option (List String)
  pub escalate_to : Option String

abbrev pub new : String → String → ProblemReport
new code comment = record { code = code; comment = comment; args = none; escalate_to = none }

abbrev pub unauthorized : String → ProblemReport
unauthorized comment = new error_unauthorized comment

abbrev pub bad_request : String → ProblemReport
bad_request comment = new error_bad_request comment

abbrev pub not_found : String → ProblemReport
not_found comment = new error_not_found comment

abbrev pub conflict : String → ProblemReport
conflict comment = new error_conflict comment

abbrev pub internal_error : String → ProblemReport
internal_error comment = new error_internal comment

abbrev pub with_args : List String → ProblemReport → ProblemReport
with_args args report = record report { args = some args }

abbrev pub with_escalate_to : String → ProblemReport → ProblemReport
with_escalate_to to report = record report { escalate_to = some to }

abbrev strings : List String → Items
strings [] = nil
strings (s ∷ ss) = cons (string s) (strings ss)

abbrev with_member : String → Option Value → Fields → Fields
with_member key none body = body
with_member key (some v) body = insert body key v

abbrev array_of : Option (List String) → Option Value
array_of none = none
array_of (some args) = some (array (strings args))

abbrev string_of : Option String → Option Value
string_of none = none
string_of (some s) = some (string s)

unfoldable pub to_body : ProblemReport → Value
unfolding insert
to_body report =
    let body = field "code" (string report.code) (field "comment" (string report.comment) end) in
    object (
      with_member "escalate_to" (string_of report.escalate_to)
        (with_member "args" (array_of report.args) body))
