-- ===== src/Controllers.antt =====
-- src/blog/controller, src/user/controller: the routes, and what their parameters and responses
-- have in common (src/decorator/authenticated-user-validation.decorator.ts, src/response).
pub mod Cookie
pub mod Accounts
pub mod Posts
pub mod Likes
pub mod UserInfo
pub mod Named
pub mod Callers
pub mod OwnLikes
pub mod OwnInfo
pub mod Links
pub mod Sessions
pub mod Memory
mod Tests
use personal_blog_service.Common.{ℕ, String, str_eq, Option, none, some, if◌then◌else◌}
use personal_blog_service.Failure.Exceptions.{Thrown, auth_unauthorized}
use personal_blog_service.Exec.{Result, ok, throw}
use personal_blog_service.Auth.Platform.{Crypto}
use personal_blog_service.Pipe.{transform}

abbrev pub no_caller : Thrown
no_caller = auth_unauthorized (some "AuthenticatedUid does not exists.")

-- `@AuthenticatedUserValidation()`: the trusted header. An empty one counts as none.
unfoldable pub authenticated_user_validation : Option String → Result String
authenticated_user_validation none = throw no_caller
authenticated_user_validation (some uid) = if str_eq uid "" then throw no_caller else ok uid

-- `new SuccessResponse()`
pub record SuccessResponse : Type 0 where
  pub code : ℕ
  pub message : String

abbrev pub success : SuccessResponse
success = record { code = 200; message = "Success!" }

-- The pipes of a path: the secret of DecryptPrimaryKeyPipe, and ParseIntPipe of the framework.
pub record Pipes : Type 0 where
  pub crypto : Crypto
  pub pk_secret_key : String
  pub parse_int : String → Result ℕ

abbrev pub parsed : (String → Result ℕ) → Result String → Result ℕ
parsed parse_int (ok key) = parse_int key
parsed parse_int (throw e) = throw e

-- `@Param('postId', DecryptPrimaryKeyPipe, ParseIntPipe)`
unfoldable pub post_id_of : Pipes → String → Result ℕ
post_id_of pipes value = parsed pipes.parse_int (transform pipes.crypto pipes.pk_secret_key value)

-- `@Param('postUid', DecryptPrimaryKeyPipe)`
abbrev pub post_uid_of : Pipes → String → Result String
post_uid_of pipes value = transform pipes.crypto pipes.pk_secret_key value
