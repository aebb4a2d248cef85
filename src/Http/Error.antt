-- ===== src/Http/Error.antt =====
-- trust-registry/src/http/error.rs: the error that a handler returns, and its response. A status
-- code is its number.
use trust_registry_build_pip.Base.{
  ℕ, String, Option, none, some, ◌≡◌, ◌↔◌, ◌≤◌, ◌<◌, ltb, if◌then◌else◌, arith,
}
use trust_registry_build_pip.Domain.Json.{Value, number, string, object, end, lookup, insert}

pub data AppError : Type 0 where
  bad_request not_found internal : String → Option Value → AppError

pub record Parts : Type 0 where
  pub status : ℕ
  pub title : String
  pub message : String
  pub details : Option Value
  pub internal_error : String

unfoldable pub into_parts : AppError → Parts
into_parts (bad_request internal_error details) = record {
  status = 400;
  title = "bad_request";
  message = "The request missing required fields";
  details = details;
  internal_error = internal_error;
}
into_parts (not_found internal_error details) = record {
  status = 404;
  title = "not_found";
  message = "The requested resource could not be found";
  details = details;
  internal_error = internal_error;
}
into_parts (internal internal_error details) = record {
  status = 500;
  title = "internal_error";
  message = "An unexpected error occurred";
  details = details;
  internal_error = internal_error;
}

abbrev pub last_warning_error_code : ℕ
last_warning_error_code = 499

pub data Level : Type 0 where
  error warn : Level

-- The level of the log entry, the status and the body.
pub record Response : Type 0 where
  pub logged : Level
  pub status : ℕ
  pub body : Value

unfoldable pub into_response : AppError → Response
unfolding into_parts insert
into_response e =
    let parts = into_parts e in
    record {
      logged = if ltb last_warning_error_code parts.status then error else warn;
      status = parts.status;
      body = object (
          insert (insert (insert end "title" (string parts.title)) "type" (string "about:blank"))
            "code" (number parts.status));
    }

-- The member of an object.
abbrev pub get : Value → String → Option Value
get (object fields) key = lookup fields key
get _ key = none

-- The status of an error response lies in the range of client and server errors, the body repeats it
-- under `code`, and the entry is logged at the error level exactly if it is a server error.
pub into_response-bounds :
    (e : AppError)
    → let response = into_response e in
      (400 ≤ response.status)
      × (response.status < 600)
      × (get response.body "code" ≡ some (number response.status))
      × ((response.logged ≡ error) ↔ (500 ≤ response.status))
unfolding into_response into_parts insert lookup
into_response-bounds (bad_request internal_error details) = ground arith
into_response-bounds (not_found internal_error details) = ground arith
into_response-bounds (internal internal_error details) = ground arith
