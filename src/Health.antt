-- ===== src/Health.antt =====
-- trust-registry/src/health.rs: the state that `/health` reports. Both accessors of the lock take the
-- state of a poisoned lock as it is, so that the lock does not show.
use trust_registry_build_pip.Base.{
  String, Bool, true, false, Option, none, some, ◌≡◌, ◌⊎◌, inl, inr, refl, if◌then◌else◌,
}
use trust_registry_build_pip.Domain.Json.{Fields, string, field, end, insert, lookup}

pub data WriteStatus : Type 0 where
  ok disabled unavailable : WriteStatus

unfoldable pub as_str : WriteStatus → String
as_str ok = "ok"
as_str disabled = "disabled"
as_str unavailable = "unavailable"

abbrev pub is_degraded : WriteStatus → Bool
is_degraded unavailable = true
is_degraded _ = false

pub record WriteState : Type 0 where
  pub status : WriteStatus
  pub detail : Option String

unfoldable pub new : Bool → WriteState
new didcomm_enabled = record { status = if didcomm_enabled then ok else disabled; detail = none }

unfoldable pub mark_writes_unavailable : String → WriteState → WriteState
mark_writes_unavailable detail s = record { status = unavailable; detail = some detail }

abbrev pub with_detail : Fields → Option String → Fields
with_detail body none = body
with_detail body (some detail) = insert body "detail" (string detail)

unfoldable pub to_json : WriteState → Fields
unfolding as_str
to_json s =
    with_detail
      (field "status" (string (if is_degraded s.status then "degraded" else "OK"))
        (field "writes" (string (as_str s.status)) end))
      s.detail

-- The states that the supervisor can bring about, from the start on
pub data Reachable (didcomm_enabled : Bool) : WriteState → Type 0 where
  started : Reachable didcomm_enabled (new didcomm_enabled)
  stopped :
      {s : WriteState} (detail : String)
      → Reachable didcomm_enabled s
      → Reachable didcomm_enabled (mark_writes_unavailable detail s)

-- In every state that is reached, the report is degraded exactly if it carries a detail: that is, if the
-- listener stopped. A registry whose writes are switched off reports `OK`.
pub to_json-Reachable :
    (didcomm_enabled : Bool) (s : WriteState)
    → Reachable didcomm_enabled s
    → ((lookup (to_json s) "status" ≡ some (string "degraded"))
        × ((detail : String) × (lookup (to_json s) "detail" ≡ some (string detail))))
      ⊎ ((lookup (to_json s) "status" ≡ some (string "OK"))
          × (lookup (to_json s) "detail" ≡ none)
          × (lookup (to_json s) "writes"
              ≡ some (string (if didcomm_enabled then "ok" else "disabled"))))
unfolding to_json new mark_writes_unavailable lookup insert as_str
to_json-Reachable true _ started = inr (refl, refl, refl)
to_json-Reachable false _ started = inr (refl, refl, refl)
to_json-Reachable enabled _ (stopped detail before) = inl (refl, (detail, refl))
