-- ===== src/Config/Auth.antt =====
-- src/config/authConfig.ts: the settings of the tokens and of the cookie.
use personal_blog_service.Common.{ℕ, ◌*◌, String, Bool, Option, none, some, if◌then◌else◌}
use personal_blog_service.Config.{Environment, is_missing, is_prod_env}

-- The settings; a key that is read with `!` may still be undefined.
pub record AuthSettings : Type 0 where
  pub pk_secret_key : Option String
  pub jwt_secret_key : Option String
  pub jwt_issuer : Option String
  pub access_token_expire_time : String
  pub refresh_token_expire_time : String
  pub google_client_id : Option String
  pub cookie_max_age : Option ℕ
  pub cookie_secure : Bool
  pub cookie_same_site : String

-- value || default
abbrev pub or_default : Option String → String → String
or_default none default = default
or_default (some value) default = if is_missing (some value) then default else value

-- process.env.COOKIE_MAX_AGE ? ms(process.env.COOKIE_MAX_AGE) : 30 days
abbrev max_age : (String → Option ℕ) → Option String → Option ℕ
max_age ms none = some (30 * 24 * 60 * 60 * 1000)
max_age ms (some value) =
    if is_missing (some value) then some (30 * 24 * 60 * 60 * 1000) else ms value

-- `ms` is the library of this name: a duration in milliseconds, or undefined.
unfoldable pub auth_config : (String → Option ℕ) → Environment → AuthSettings
auth_config ms env = record {
  pk_secret_key = env "PK_SECRET_KEY";
  jwt_secret_key = env "JWT_SECRET_KEY";
  jwt_issuer = env "JWT_ISSUER";
  access_token_expire_time = or_default (env "JWT_ACCESSTOKEN_EXPIRE_TIME") "1h";
  refresh_token_expire_time = or_default (env "JWT_REFRESHTOKEN_EXPIRE_TIME") "30d";
  google_client_id = env "GOOGLE_CLIENT_ID";
  cookie_max_age = max_age ms (env "COOKIE_MAX_AGE");
  cookie_secure = is_prod_env env;
  cookie_same_site = or_default (env "COOKIE_SAME_SITE") "strict";
}
