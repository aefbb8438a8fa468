-- ===== src/Config/Tests.antt =====
-- The configuration with a checker in memory, and its theorems at a concrete environment.
use personal_blog_service.Common.{
  String, str_eq, ◌≡◌, refl, Bool, true, false, Bool-cases, inl, inr, not, ◌&&◌, Option, none, some,
  List, [], ◌∷◌, ltb, ltb→lt, read_digits, arith, if◌then◌else◌,
}
use mathlib.Core.Path.{subst}
use personal_blog_service.Exec.{ok}
use personal_blog_service.Config.{Environment, is_missing}
use personal_blog_service.Config.Validation.{
  Rule, text, text_of_length, one_of, positive_integer, duration, Presence, required, optional, Key,
  Joi, JoiLaws, Allowed, Conforms, entry,
}
use personal_blog_service.Config.Auth.{auth_config}
use personal_blog_service.Config.Database.{DataSourceOptions, data_source, type_orm_config}
use personal_blog_service.Config.Limits.{throttler_options}
use personal_blog_service.Config.Logging.{transports, console}
use personal_blog_service.Config.Accepted.{IsPositive, data_source-accepted, auth_config-accepted}

abbrev accepts : Rule → String → Bool
accepts positive_integer value = not (str_eq value "") && ltb 0 (read_digits 0 value)
accepts text value = not (str_eq value "")
accepts (text_of_length _) value = not (str_eq value "")
accepts (one_of _) value = not (str_eq value "")
accepts (duration _) value = not (str_eq value "")

abbrev allowed : Presence → Rule → Option String → Bool
allowed presence rule (some value) = accepts rule value
allowed required rule none = false
allowed optional rule none = true

abbrev validate : List Key → Environment → Bool
validate [] env = true
validate (key ∷ keys) env = allowed key.presence key.rule (env key.name) && validate keys env

abbrev joi : Joi
joi = record {
  accepts = accepts;
  validate = validate;
  number = λ value. some (read_digits 0 value);
}

nonempty : (rule : Rule) (value : String) → accepts rule value ≡ true → str_eq value "" ≡ false
nonempty text value h = ground arith
nonempty (text_of_length _) value h = ground arith
nonempty (one_of _) value h = ground arith
nonempty positive_integer value h = ground arith
nonempty (duration _) value h = ground arith

conforms :
    (presence : Presence) (rule : Rule) (o : Option String)
    → allowed presence rule o ≡ true
    → Allowed joi presence rule o
conforms presence rule (some value) h = h
conforms required rule none h = absurd (ground arith)
conforms optional rule none h = tt

both : (b c : Bool) → (b && c) ≡ true → (b ≡ true) × (c ≡ true)
both b c h = ground arith

only : (k key : Key) → ◌≡◌ {A = Option Key} (some k) (some key) → k ≡ key
only k key h = cc

validated :
    (keys : List Key) (env : Environment) (key : Key)
    → validate keys env ≡ true
    → entry key.name keys ≡ some key
    → Conforms joi env key
validated [] env key h e = absurd (ground arith)
validated (k ∷ keys) env key h e =
    let (first, rest) = both _ (validate keys env) h in
    elim (Bool-cases (str_eq k.name key.name)) [
      | inl same ↦
          subst (Conforms joi env) (only k key (rw same at e))
            (conforms k.presence k.rule (env k.name) first)
      | inr other ↦ validated keys env key rest (rw other at e)
    ]

joi_laws : JoiLaws joi
joi_laws = record {
  validate_ok = validated;
  accepts_nonempty = nonempty;
  accepts_positive =
      λ value h. (read_digits 0 value, refl, ltb→lt 0 (read_digits 0 value) (both _ (ltb 0 _) h).1);
}

-- A file that gives the ports and a text of sixteen characters for all the rest.
abbrev env : Environment
env key =
    if str_eq key "DB_PORT"
    then some "3306"
    else if str_eq key "REDIS_PORT"
    then some "6379"
    else if str_eq key "THROTTLE_DEFAULT_TTL"
    then none
    else if str_eq key "THROTTLE_DEFAULT_LIMIT"
    then some "100"
    else some "0123456789abcdef"

-- The environment of the tests, and one whose file is the one above.
abbrev in_test : Environment
in_test key = if str_eq key "NODE_ENV" then some "test" else none

abbrev dotenv : String → Environment → Environment
dotenv file held = if str_eq file ".test.env" then env else held

data_source-accepted_example :
    (options : DataSourceOptions) × (data_source joi.number dotenv in_test ≡ ok options)
    × (options.connection ≡ (type_orm_config joi.number env).connection)
    × IsPositive options.connection.port
data_source-accepted_example = data_source-accepted joi joi_laws dotenv in_test (inl refl) refl

auth_config-accepted_example :
    let c = auth_config (λ value. some 1000) env in
    let t = throttler_options joi.number env in
    (is_missing c.pk_secret_key ≡ false)
    × (is_missing c.jwt_secret_key ≡ false)
    × (is_missing c.jwt_issuer ≡ false)
    × (is_missing c.google_client_id ≡ false)
    × (some c.access_token_expire_time ≡ env "JWT_ACCESSTOKEN_EXPIRE_TIME")
    × (some c.refresh_token_expire_time ≡ env "JWT_REFRESHTOKEN_EXPIRE_TIME")
    × IsPositive t.ttl
    × IsPositive t.limit
auth_config-accepted_example = auth_config-accepted joi joi_laws (λ value. some 1000) env refl

-- In a test nothing is written to a file.
transports_test : transports (λ key. some "test") ≡ console "silly" ∷ []
unfolding transports
transports_test = refl
