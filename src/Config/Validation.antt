-- ===== src/Config/Validation.antt =====
-- src/config/validationEnv.ts: the keys that the service asks of its environment. Joi, which checks
-- them, is no part of the repository.
use personal_blog_service.Common.{
  ℕ, ◌<◌, String, str_eq, ◌≡◌, Bool, true, false, Option, none, some, List, [], ◌∷◌, if◌then◌else◌,
}
use personal_blog_service.Config.{Environment}

-- What a value has to be: Joi.string(), with .length(…) or .valid(…), Joi.number().integer()
-- .positive(), and the alternatives of a duration: digits with one of the given units or none, or a
-- positive integer.
pub data Rule : Type 0 where
  text : Rule
  text_of_length : ℕ → Rule
  one_of : List String → Rule
  positive_integer : Rule
  duration : String → Rule

pub data Presence : Type 0 where
  required optional : Presence

pub record Key : Type 0 where
  pub name : String
  pub rule : Rule
  pub presence : Presence

abbrev pub needs : String → Rule → Key
needs name rule = record { name = name; rule = rule; presence = required }

abbrev pub allows : String → Rule → Key
allows name rule = record { name = name; rule = rule; presence = optional }

abbrev pub validation_env : List Key
validation_env =
    needs "PK_SECRET_KEY" (text_of_length 16)
    ∷ needs "JWT_SECRET_KEY" text
    ∷ needs "JWT_ISSUER" text
    ∷ needs "JWT_ACCESSTOKEN_EXPIRE_TIME" (duration "smhd")
    ∷ needs "JWT_REFRESHTOKEN_EXPIRE_TIME" (duration "smhd")
    ∷ allows "COOKIE_MAX_AGE" (duration "smhdwy")
    ∷ allows "COOKIE_SAME_SITE" (one_of ("strict" ∷ "lax" ∷ "none" ∷ []))
    ∷ allows "THROTTLE_DEFAULT_TTL" positive_integer
    ∷ allows "THROTTLE_DEFAULT_LIMIT" positive_integer
    ∷ needs "GOOGLE_CLIENT_ID" text
    ∷ needs "REDIS_HOST" text
    ∷ needs "REDIS_PORT" positive_integer
    ∷ needs "REDIS_PASSWORD" text
    ∷ needs "DB_HOST" text
    ∷ needs "DB_PORT" positive_integer
    ∷ needs "DB_USERNAME" text
    ∷ needs "DB_PASSWORD" text
    ∷ needs "DB_DATABASE" text
    ∷ []

-- The entry of a name in a schema.
abbrev pub entry : String → List Key → Option Key
entry name [] = none
entry name (key ∷ keys) = if str_eq key.name name then some key else entry name keys

-- Joi, and Number(…) of JavaScript on texts, with `none` for NaN.
pub record Joi : Type 0 where
  pub accepts : Rule → String → Bool
  pub validate : List Key → Environment → Bool
  pub number : String → Option ℕ

module _ (joi : Joi) where
  abbrev pub Allowed : Presence → Rule → Option String → Type 0
  Allowed presence rule (some value) = joi.accepts rule value ≡ true
  Allowed required rule none = ⊥
  Allowed optional rule none = Unit {0}

  -- A required key is there, and a key that is there has an accepted value.
  abbrev pub Conforms : Environment → Key → Type 0
  Conforms env key = Allowed key.presence key.rule (env key.name)

  pub record JoiLaws : Type 0 where
    pub validate_ok :
        (keys : List Key) (env : Environment) (key : Key)
        → joi.validate keys env ≡ true
        → entry key.name keys ≡ some key
        → Conforms env key
    -- No rule accepts an empty text.
    pub accepts_nonempty :
        (rule : Rule) (value : String) → joi.accepts rule value ≡ true → str_eq value "" ≡ false
    pub accepts_positive :
        (value : String)
        → joi.accepts positive_integer value ≡ true
        → (n : ℕ) × (joi.number value ≡ some n) × (0 < n)
