-- ===== src/Config/Accepted.antt =====
-- What an environment that was accepted configures.
use personal_blog_service.Common.{
  ℕ, ◌<◌, String, ◌≡◌, ◌⊎◌, inl, inr, refl, true, false, Option, none, some, arith,
}
use personal_blog_service.Exec.{ok}
use personal_blog_service.Config.{Environment, is_missing, number_of}
use personal_blog_service.Config.Validation.{
  Rule, text, text_of_length, positive_integer, duration, required, optional, Allowed, Joi, JoiLaws,
  validation_env, entry, needs, allows,
}
use personal_blog_service.Config.Auth.{auth_config, or_default}
use personal_blog_service.Config.Database.{
  DataSourceOptions, env_file, service_env_file, data_source, connection_of, type_orm_config,
}
use personal_blog_service.Config.Limits.{number_or, throttler_options}

abbrev pub IsPositive : Option ℕ → Type 0
IsPositive o = (n : ℕ) × (o ≡ some n) × (0 < n)

module _ (joi : Joi) (laws : JoiLaws joi) where
  given : (rule : Rule) (o : Option String) → Allowed joi required rule o → is_missing o ≡ false
  given rule none h = absurd h
  given rule (some value) h = laws.accepts_nonempty rule value h

  needed :
      (env : Environment) (name : String) (rule : Rule)
      → joi.validate validation_env env ≡ true
      → entry name validation_env ≡ some (needs name rule)
      → is_missing (env name) ≡ false
  needed env name rule h e =
      given rule (env name) (laws.validate_ok validation_env env (needs name rule) h e)

  given_number :
      (o : Option String)
      → Allowed joi required positive_integer o
      → IsPositive (number_of joi.number o)
  given_number none h = absurd h
  given_number (some value) h = laws.accepts_positive value h

  given_or :
      (default : ℕ) (o : Option String)
      → 0 < default
      → Allowed joi optional positive_integer o
      → IsPositive (number_or joi.number default o)
  given_or default none positive h = (default, refl, positive)
  given_or default (some value) positive h = laws.accepts_positive value h

  kept :
      (o : Option String) (default : String)
      → is_missing o ≡ false
      → some (or_default o default) ≡ o
  kept none default h = absurd (ground arith)
  kept (some value) default h = rw h refl

  same_file :
      (env : Environment)
      → (env "NODE_ENV" ≡ some "test") ⊎ (env "NODE_ENV" ≡ some "development")
      → env_file env ≡ service_env_file env
  same_file env (inl e) = rw e refl
  same_file env (inr e) = rw e refl

  -- With NODE_ENV test or development, the data source of the command line reads the file of the
  -- service. When the service accepts the environment with this file, the data source finds no key
  -- missing, and it connects to the same database as the service, at a positive port.
  pub data_source-accepted :
      (dotenv : String → Environment → Environment) (env : Environment)
      → (env "NODE_ENV" ≡ some "test") ⊎ (env "NODE_ENV" ≡ some "development")
      → let loaded = dotenv (service_env_file env) env in
        joi.validate validation_env loaded ≡ true
        → (options : DataSourceOptions) × (data_source joi.number dotenv env ≡ ok options)
          × (options.connection ≡ (type_orm_config joi.number loaded).connection)
          × IsPositive options.connection.port
  unfolding data_source type_orm_config
  data_source-accepted dotenv env mode h =
      let loaded = dotenv (service_env_file env) env in
      let port = laws.validate_ok _ loaded (needs "DB_PORT" positive_integer) h refl in
      (
        record {
          connection = connection_of joi.number loaded;
          synchronize = false;
          migrations_run = false;
          cache = none;
        },
        rw
            (
              same_file env mode,
              needed loaded "DB_HOST" text h refl,
              needed loaded "DB_PORT" positive_integer h refl,
              needed loaded "DB_USERNAME" text h refl,
              needed loaded "DB_PASSWORD" text h refl,
              needed loaded "DB_DATABASE" text h refl,
            )
            refl,
        refl,
        given_number (loaded "DB_PORT") port,
      )

  -- In an accepted environment no secret, issuer or client id is missing or empty, the lifetimes of the
  -- tokens are those of the environment and never the defaults, and the rate limiter has a positive
  -- window and a positive limit.
  pub auth_config-accepted :
      (ms : String → Option ℕ) (env : Environment)
      → joi.validate validation_env env ≡ true
      → let c = auth_config ms env in
        let t = throttler_options joi.number env in
        (is_missing c.pk_secret_key ≡ false)
        × (is_missing c.jwt_secret_key ≡ false)
        × (is_missing c.jwt_issuer ≡ false)
        × (is_missing c.google_client_id ≡ false)
        × (some c.access_token_expire_time ≡ env "JWT_ACCESSTOKEN_EXPIRE_TIME")
        × (some c.refresh_token_expire_time ≡ env "JWT_REFRESHTOKEN_EXPIRE_TIME")
        × IsPositive t.ttl
        × IsPositive t.limit
  unfolding auth_config throttler_options
  auth_config-accepted ms env h = (
    needed env "PK_SECRET_KEY" (text_of_length 16) h refl,
    needed env "JWT_SECRET_KEY" text h refl,
    needed env "JWT_ISSUER" text h refl,
    needed env "GOOGLE_CLIENT_ID" text h refl,
    kept (env "JWT_ACCESSTOKEN_EXPIRE_TIME") "1h"
        (needed env "JWT_ACCESSTOKEN_EXPIRE_TIME" (duration "smhd") h refl),
    kept (env "JWT_REFRESHTOKEN_EXPIRE_TIME") "30d"
        (needed env "JWT_REFRESHTOKEN_EXPIRE_TIME" (duration "smhd") h refl),
    given_or 60000 (env "THROTTLE_DEFAULT_TTL") (omega arith)
        (laws.validate_ok _ env (allows "THROTTLE_DEFAULT_TTL" positive_integer) h refl),
    given_or 200 (env "THROTTLE_DEFAULT_LIMIT") (omega arith)
        (laws.validate_ok _ env (allows "THROTTLE_DEFAULT_LIMIT" positive_integer) h refl),
  )
