-- ===== src/Config/Limits.antt =====
-- src/app.module.ts: the options of the rate limiter.
use personal_blog_service.Common.{ℕ, String, Bool, Option, none, some}
use personal_blog_service.Config.{Environment, is_test_env}

pub record ThrottlerOptions : Type 0 where
  pub name : String
  -- In milliseconds; `none` is NaN.
  pub ttl : Option ℕ
  pub limit : Option ℕ
  -- skipIf()
  pub is_skipped : Bool

-- Number(configService.get(key, default))
abbrev pub number_or : (String → Option ℕ) → ℕ → Option String → Option ℕ
number_or number default none = some default
number_or number default (some value) = number value

unfoldable pub throttler_options : (String → Option ℕ) → Environment → ThrottlerOptions
throttler_options number env = record {
  name = "default";
  ttl = number_or number 60000 (env "THROTTLE_DEFAULT_TTL");
  limit = number_or number 200 (env "THROTTLE_DEFAULT_LIMIT");
  is_skipped = is_test_env env;
}
