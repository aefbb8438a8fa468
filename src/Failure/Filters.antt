-- ===== src/Failure/Filters.antt =====
-- The exception filters (src/filter) and the order in which src/app.module.ts registers them.
use personal_blog_service.Common.{
  ℕ, ◌==◌, String, join, Option, none, some, List, [], ◌∷◌, if◌then◌else◌, Bool, true, false,
}
use personal_blog_service.Failure.Codes.{ErrorCode, number_of}
use personal_blog_service.Failure.Codes
use personal_blog_service.Failure.Exceptions.{
  many, one, other, HttpBody, text, object, Thrown, base, http,
}

-- `HTTP_STATUS_TO_ERROR_CODE[status]`; `none` is undefined.
unfoldable pub http_status_to_error_code : ℕ → Option ErrorCode
http_status_to_error_code status =
    if status == 400
    then some Codes.common_bad_request
    else if status == 401
    then some Codes.common_unauthorized
    else if status == 404
    then some Codes.common_not_found
    else if status == 406
    then some Codes.common_not_acceptable
    else if status == 409
    then some Codes.common_conflict
    else if status == 429
    then some Codes.common_too_many_requests
    else if status == 500
    then some Codes.common_internal_error
    else if status == 503
    then some Codes.common_service_unavailable
    else none

unfoldable pub extract_http_exception_message : HttpBody → String
extract_http_exception_message (text t) = t
extract_http_exception_message (object (many messages)) = join ", " messages
extract_http_exception_message (object (one message)) = message
extract_http_exception_message (object other) = ""

-- FailureResponse; JSON leaves an undefined field out.
pub record FailureResponse : Type 0 where
  pub code : Option ℕ
  pub message : Option String

pub record Reply : Type 0 where
  pub status : ℕ
  pub body : FailureResponse

abbrev code_number : Option ErrorCode → Option ℕ
code_number none = none
code_number (some c) = some (number_of c)

unfoldable pub send_failure_response : Option ErrorCode → Option String → Reply
send_failure_response code message = record {
  status = 200;
  body = record { code = code_number code; message = message };
}

-- The fallback of an unmapped status.
abbrev pub or_internal : Option ErrorCode → ErrorCode
or_internal none = Codes.common_internal_error
or_internal (some code) = code

unfoldable pub map_to_error_code : ℕ → ErrorCode
unfolding http_status_to_error_code
map_to_error_code status = or_internal (http_status_to_error_code status)

pub data Filter : Type 0 where
  unhandled_exception_filter http_exception_filter base_exception_filter : Filter

-- The classes that a filter's `@Catch` names.
unfoldable pub catches : Filter → Thrown → Bool
catches unhandled_exception_filter _ = true
catches http_exception_filter (http _ _) = true
catches http_exception_filter _ = false
catches base_exception_filter (base _) = true
catches base_exception_filter _ = false

-- Each filter's `catch`, less its log line. A filter is only handed what its `@Catch` names.
unfoldable pub catch : Filter → Thrown → Reply
unfolding send_failure_response map_to_error_code extract_http_exception_message
catch base_exception_filter (base e) = send_failure_response e.error_code e.message
catch http_exception_filter (http status response) =
    send_failure_response (some (map_to_error_code status))
      (some (extract_http_exception_message response))
catch _ _ = send_failure_response (some Codes.common_internal_error) (some "Internal Server Error!")

-- The `APP_FILTER` providers as they are registered.
unfoldable pub registered : List Filter
registered = unhandled_exception_filter ∷ http_exception_filter ∷ base_exception_filter ∷ []

-- The framework asks the filters in the reverse of their registration and takes the first that
-- catches the exception; `none` is what no filter catches.
abbrev last_match : List Filter → Thrown → Option Filter
last_match [] e = none
last_match (f ∷ fs) e = elim (last_match fs e) [
  | none ↦ if catches f e then some f else none
  | some g ↦ some g
]

abbrev reply_by : Option Filter → Thrown → Option Reply
reply_by none e = none
reply_by (some f) e = some (catch f e)

unfoldable pub respond : Thrown → Option Reply
unfolding registered catches catch
respond e = reply_by (last_match registered e) e
