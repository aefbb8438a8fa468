-- ===== src/Failure/Exceptions.antt =====
-- What the code throws: src/exception/**, the framework's HttpException, and any other Error.
use personal_blog_service.Common.{ℕ, String, ◌⊕◌, decimal, Option, none, some, List}
use personal_blog_service.Failure.Codes
use personal_blog_service.Failure.Codes.{ErrorCode}

-- What `HttpException.getResponse()` holds under `message`: an array of texts, a text, or
-- anything else, an absent field included.
pub data MessageField : Type 0 where
  many : List String → MessageField
  one : String → MessageField
  other : MessageField

-- `HttpException.getResponse()`: a text, or an object with its `message` field.
pub data HttpBody : Type 0 where
  text : String → HttpBody
  object : MessageField → HttpBody

-- The fields of a BaseException. The first two are optional because a replayed snapshot is cast
-- (`record.errorCode as ErrorCode`) and a missing field stays undefined.
pub record BaseException : Type 0 where
  pub error_code : Option ErrorCode
  pub message : Option String
  pub value : Option String

pub data Thrown : Type 0 where
  base : BaseException → Thrown
  -- The status and the response of an HttpException.
  http : ℕ → HttpBody → Thrown
  -- The class name and the message of any other Error.
  error : String → String → Thrown

abbrev pub base_exception : ErrorCode → String → Option String → Thrown
base_exception code message value =
    base (record { error_code = some code; message = some message; value = value })

-- `context ?? fallback`.
abbrev or_default : Option String → String → String
or_default none fallback = fallback
or_default (some context) fallback = context

abbrev pub auth_unauthorized : Option String → Thrown
auth_unauthorized context =
    base_exception Codes.auth_unauthorized (or_default context "Unauthorized") none

abbrev pub auth_invalid_password : Thrown
auth_invalid_password = base_exception Codes.auth_invalid_password "Password does not match." none

abbrev pub auth_invalid_oauth_token : Option String → Thrown
auth_invalid_oauth_token detail =
    base_exception Codes.auth_invalid_oauth_token (or_default detail "Invalid OAuth token.") none

abbrev pub auth_refresh_token_required : Thrown
auth_refresh_token_required =
    base_exception Codes.auth_refresh_token_required "Refresh token is required." none

abbrev pub auth_invalid_refresh_token : Option String → Thrown
auth_invalid_refresh_token context =
    base_exception Codes.auth_invalid_refresh_token (or_default context "Invalid refresh token.")
      none

abbrev pub user_not_found : String → Thrown
user_not_found uid =
    base_exception Codes.user_not_found ("User does not exist! - [" ⊕ uid ⊕ "]") none

abbrev pub user_already_exists : String → Thrown
user_already_exists uid =
    base_exception Codes.user_already_exists ("User already exists. - [" ⊕ uid ⊕ "]") none

abbrev pub user_info_not_found : String → Thrown
user_info_not_found uid =
    base_exception Codes.user_info_not_found ("User does not exist! - [" ⊕ uid ⊕ "]") none

abbrev pub user_info_already_exists : String → Thrown
user_info_already_exists uid =
    base_exception Codes.user_info_already_exists ("UserInfo already exists. - [" ⊕ uid ⊕ "]") none

abbrev pub post_not_found : ℕ → Thrown
post_not_found post_id =
    base_exception Codes.post_not_found ("Post does not exist! - [" ⊕ decimal post_id ⊕ "]") none

abbrev pub post_like_already_exists : Thrown
post_like_already_exists =
    base_exception Codes.post_like_already_exists "Post like already exists." none

abbrev pub post_like_not_found : Thrown
post_like_not_found = base_exception Codes.post_like_not_found "Post like not found." none

abbrev pub invalid_encrypted_parameter : Thrown
invalid_encrypted_parameter =
    base_exception Codes.invalid_encrypted_parameter "Invalid encrypted parameter." none

abbrev pub invalid_page : ℕ → Thrown
invalid_page page =
    base_exception Codes.invalid_page
      ("Invalid page number: " ⊕ decimal page ⊕ ". Page must be >= 1") (some (decimal page))

abbrev pub idempotency_in_progress : Thrown
idempotency_in_progress =
    base_exception Codes.idempotency_in_progress
      "A request with the same Idempotency-Key is in progress." none

abbrev pub idempotent_replay : Option ErrorCode → Option String → Thrown
idempotent_replay code message =
    base (record { error_code = code; message = message; value = none })

-- `new BadRequestException(message)` and the others of its kind: the framework documents the
-- status and an object response whose `message` is the argument.
abbrev pub bad_request : String → Thrown
bad_request message = http 400 (object (one message))
