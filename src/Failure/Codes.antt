-- ===== src/Failure/Codes.antt =====
-- The numeric enum of src/constant/error-code.enum.ts.
use personal_blog_service.Common.{ℕ}

pub data ErrorCode : Type 0 where
  auth_unauthorized auth_invalid_password auth_invalid_oauth_token : ErrorCode
  auth_refresh_token_required auth_invalid_refresh_token : ErrorCode
  user_not_found user_already_exists user_info_not_found user_info_already_exists : ErrorCode
  post_not_found post_like_already_exists post_like_not_found : ErrorCode
  common_bad_request common_unauthorized common_not_found common_not_acceptable : ErrorCode
  common_conflict common_internal_error common_service_unavailable : ErrorCode
  common_too_many_requests idempotency_in_progress : ErrorCode
  invalid_encrypted_parameter invalid_page : ErrorCode

-- The number that an enum member is.
unfoldable pub number_of : ErrorCode → ℕ
number_of auth_unauthorized = 10001
number_of auth_invalid_password = 10002
number_of auth_invalid_oauth_token = 10003
number_of auth_refresh_token_required = 10004
number_of auth_invalid_refresh_token = 10005
number_of user_not_found = 20001
number_of user_already_exists = 20002
number_of user_info_not_found = 20003
number_of user_info_already_exists = 20004
number_of post_not_found = 30001
number_of post_like_already_exists = 31001
number_of post_like_not_found = 31002
number_of common_bad_request = 90001
number_of common_unauthorized = 90002
number_of common_not_found = 90003
number_of common_not_acceptable = 90004
number_of common_conflict = 90005
number_of common_internal_error = 90006
number_of common_service_unavailable = 90007
number_of common_too_many_requests = 90008
number_of idempotency_in_progress = 90009
number_of invalid_encrypted_parameter = 91001
number_of invalid_page = 91002
