-- ===== src/Audit/Logger.antt =====
-- `BaseAuditLogger` of trust-registry/src/audit/audit_logger.rs: the entries that it writes. A panic is
-- `none`; the text of a time and the JSON text of an object are parameters.
use Prim.Native.Char.{Char, code}
use Prim.Native.String
use package.text.Mathlib.TextLemmas.{nil-append, cons-append, append-nil, append_assoc}
use trust_registry_build_pip.Base.{
  ℕ, String, false, Option, none, some, ◌≡◌, ◌≢◌, refl, ap, ◌∙◌, arith, List, [], ◌∷◌, unwrap_or,
  if◌then◌else◌, ◌==◌, Bool-cases, inl, inr, nat_eq, string_eq, format,
}
use mathlib.Core.Option
use trust_registry_build_pip.Base.Strings.{Free}
use trust_registry_build_pip.Domain.Json.{Value, Fields, string, object, end, insert, lookup}
use trust_registry_build_pip.Audit.{
  AuditResource, AuditOperation, AuditLog, audit_role_admin, status_to_string, operation_to_string,
  build_failure,
}

pub record EmitInput : Type 0 where
  pub target : String
  pub operation : AuditOperation
  pub actor : String
  pub status : String
  pub resource : AuditResource
  pub extra : Option String
  pub thread_id : Option String
  pub timestamp : ℕ

abbrev pub na : String
na = "N/A"

-- `thread_id_or_na`, and `opt_to_string` of the newtypes over texts
abbrev pub or_na : Option String → String
or_na o = unwrap_or o na

-- `str::split("=")`: the pieces between the separators
abbrev pub prepend : Char → List String → List String
prepend c [] = []
prepend c (piece ∷ pieces) = String.◌∷◌ c piece ∷ pieces

unfoldable pub split : String → List String
split String.[] = "" ∷ []
split (String.◌∷◌ c s) =
    let pieces = split s in if code c == b'=' then "" ∷ pieces else prepend c pieces

-- `[..2]` of the pieces, which panics on fewer
abbrev pub first_two : List String → Option (String × String)
first_two (key ∷ value ∷ rest) = some (key, value)
first_two _ = none

unfoldable pub resource_json_value : AuditResource → Value
unfolding insert
resource_json_value resource = object (
    insert
      (insert
        (insert (insert end "entity_id" (string (or_na resource.entity_id))) "authority_id"
          (string (or_na resource.authority_id)))
        "action" (string (or_na resource.action)))
      "resource" (string (or_na resource.resource)))

module _ (rfc3339 : ℕ → String) where
  -- The members before the extra one
  unfoldable pub json_head : EmitInput → Fields
  unfolding insert resource_json_value operation_to_string
  json_head input =
      insert
        (insert
          (insert
            (insert (insert end "role" (string audit_role_admin)) "actor" (string input.actor))
            "operation" (string (operation_to_string input.operation)))
          "status" (string input.status))
        "resource" (resource_json_value input.resource)

  abbrev pub with_extra : Fields → Option String → Option Fields
  with_extra fields none = some fields
  with_extra fields (some extra) =
      Option.map (λ ex. insert fields ex.0 (string ex.1)) (first_two (split extra))

  unfoldable pub emit_json : EmitInput → Option Value
  unfolding json_head split
  emit_json input =
      Option.map
        (λ fields. object (
          insert (insert fields "timestamp" (string (rfc3339 input.timestamp))) "thread_id"
            (string (or_na input.thread_id))))
        (with_extra (json_head input) input.extra)

  abbrev pub join : List String → String
  join [] = ""
  join (part ∷ []) = part
  join (part ∷ next ∷ parts) = format (part ∷ " " ∷ join (next ∷ parts) ∷ [])

  abbrev pub line : EmitInput → List String → String
  line input rest = format (
      audit_role_admin
      ∷ ": "
      ∷ operation_to_string input.operation
      ∷ " operation by "
      ∷ input.actor
      ∷ " - "
      ∷ rest)

  -- The text and the extra part, by the status and the extra text of the entry.
  abbrev pub text_parts : EmitInput → Option String → String × Option (String × String)
  text_parts input none = (line input (input.status ∷ []), none)
  text_parts input (some message) =
      if input.status == "FAILURE"
      then (line input ("FAILURE: " ∷ message ∷ []), some ("audit.error", message))
      else if input.status == "UNAUTHORIZED"
      then (line input ("UNAUTHORIZED: " ∷ message ∷ []), some ("audit.reason", message))
      else (line input (input.status ∷ []), none)

  abbrev pub extra_part : Option (String × String) → List String
  extra_part none = []
  extra_part (some (key, value)) = format (key ∷ "=" ∷ value ∷ []) ∷ []

  abbrev pub log_parts : EmitInput → List String → List String
  log_parts input rest =
      format ("audit.role=" ∷ audit_role_admin ∷ [])
      ∷ format ("audit.actor=" ∷ input.actor ∷ [])
      ∷ format ("audit.operation=" ∷ operation_to_string input.operation ∷ [])
      ∷ format ("audit.status=" ∷ input.status ∷ [])
      ∷ format ("audit.resource.entity_id=" ∷ or_na input.resource.entity_id ∷ [])
      ∷ format ("audit.resource.authority_id=" ∷ or_na input.resource.authority_id ∷ [])
      ∷ format ("audit.resource.action=" ∷ or_na input.resource.action ∷ [])
      ∷ format ("audit.resource.resource=" ∷ or_na input.resource.resource ∷ [])
      ∷ format ("audit.timestamp=" ∷ rfc3339 input.timestamp ∷ [])
      ∷ format ("audit.thread_id=" ∷ or_na input.thread_id ∷ [])
      ∷ rest

  unfoldable pub emit_text : EmitInput → String
  emit_text input =
      let (text, extra) = text_parts input input.extra in
      format (text ∷ " | " ∷ join (log_parts input (extra_part extra)) ∷ [])

abbrev pub input_of : AuditLog → EmitInput
input_of log = record {
  target = log.target;
  operation = log.operation;
  actor = log.actor;
  status = status_to_string log.status;
  resource = log.resource;
  extra = log.extra;
  thread_id = log.thread_id;
  timestamp = log.timestamp;
}

pub data AuditLogFormat : Type 0 where
  json text : AuditLogFormat

-- `BaseAuditLogger::log`: the line of the entry
unfoldable pub log : (ℕ → String) → (Value → String) → AuditLogFormat → AuditLog → Option String
unfolding emit_json emit_text
log rfc3339 to_text json entry = Option.map to_text (emit_json rfc3339 (input_of entry))
log rfc3339 to_text text entry = some (emit_text rfc3339 (input_of entry))

split-append : (p t : String) → Free b'=' p → split (String.◌++◌ p (String.◌∷◌ "=" t)) ≡ p ∷ split t
unfolding split
split-append String.[] t free = ap split (nil-append (String.◌∷◌ "=" t))
split-append (String.◌∷◌ c p) t free =
    ap split (cons-append c p (String.◌∷◌ "=" t))
    ∙ ap
        (λ b.
          if b
          then "" ∷ split (String.◌++◌ p (String.◌∷◌ "=" t))
          else prepend c (split (String.◌++◌ p (String.◌∷◌ "=" t))))
        (other free.0)
    ∙ ap (prepend c) (split-append p t free.1)
  where
    other : code c ≢ b'=' → code c == b'=' ≡ false
    other ne = ground (arith, ne)

-- The text before the first `=`
abbrev pub first_piece : List String → String
first_piece [] = ""
first_piece (piece ∷ pieces) = piece

split-cons : (s : String) → (rest : List String) × (split s ≡ first_piece (split s) ∷ rest)
unfolding split
split-cons String.[] = ([], refl)
split-cons (String.◌∷◌ c s) =
    let rest = split-cons s in
    elim (Bool-cases (code c == b'=')) [
      | inl same ↦ (split s, rw same refl)
      | inr other ↦ (rest.0, rw (other, rest.1) refl)
    ]

first_two-split : (key s : String) → first_two (key ∷ split s) ≡ some (key, first_piece (split s))
first_two-split key s = ap (λ pieces. first_two (key ∷ pieces)) (split-cons s).1

module _ (rfc3339 : ℕ → String) (now : ℕ) (message : String) (l : AuditLog) where
  error_split : split (format ("audit.error=" ∷ message ∷ [])) ≡ "audit.error" ∷ split message
  error_split =
      ap split (
        ap (String.◌++◌ "audit.error=") (append-nil message)
        ∙ append_assoc "audit.error" "=" message
        ∙ ap (String.◌++◌ "audit.error")
            (cons-append "=" String.[] message ∙ ap (String.◌∷◌ "=") (nil-append message)))
      ∙ split-append "audit.error" message (ground arith)

  -- A failure is logged as JSON without a panic. Its member `audit.error` holds the message up to the
  -- first `=`; what follows is dropped.
  pub emit_json-failure :
      (fields : Fields) × (emit_json rfc3339 (input_of (build_failure now message l))
        ≡ some (object fields))
      × (lookup fields "audit.error" ≡ some (string (first_piece (split message))))
      × (lookup fields "status" ≡ some (string "FAILURE"))
  unfolding emit_json json_head insert lookup status_to_string
  emit_json-failure = (
    insert
        (insert
          (insert (json_head rfc3339 (input_of (build_failure now message l))) "audit.error"
            (string (first_piece (split message))))
          "timestamp" (string (rfc3339 now)))
        "thread_id" (string (or_na l.thread_id)),
    simp (error_split, first_two-split "audit.error" message),
    refl,
    refl,
  )
