-- ===== src/Config.antt =====
-- src/config: the environment, and what the parts of the service are configured with.
pub mod Validation
pub mod Auth
pub mod Database
pub mod Logging
pub mod Limits
pub mod Accepted
mod Tests
use personal_blog_service.Common.{ℕ, String, str_eq, Bool, true, false, Option, none, some}

-- process.env
abbrev pub Environment : Type 0
Environment = String → Option String

-- !value
abbrev pub is_missing : Option String → Bool
is_missing none = true
is_missing (some value) = str_eq value ""

-- `configService.get(key) === value`, `process.env[key] === value`
abbrev pub is_value : String → Option String → Bool
is_value value none = false
is_value value (some held) = str_eq held value

-- process.env.NODE_ENV === 'test', and 'production'.
abbrev pub is_test_env : Environment → Bool
is_test_env env = is_value "test" (env "NODE_ENV")

abbrev pub is_prod_env : Environment → Bool
is_prod_env env = is_value "production" (env "NODE_ENV")

-- Number(value); `none` is NaN, also for undefined.
abbrev pub number_of : (String → Option ℕ) → Option String → Option ℕ
number_of number none = none
number_of number (some value) = number value
