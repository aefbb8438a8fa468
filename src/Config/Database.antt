-- ===== src/Config/Database.antt =====
-- src/config/data-source.ts, src/config/typeOrmConfig.ts, src/redis/redis.providers.ts: the
-- connections to the database, of the command line and of the service, and to Redis. The paths of the
-- entities and of the migrations are left out.
use personal_blog_service.Common.{
  ℕ, String, ◌⊕◌, join, Bool, false, Option, none, some, List, [], ◌∷◌, select, if◌then◌else◌,
}
use personal_blog_service.Failure.Exceptions.{error}
use personal_blog_service.Exec.{Result, ok, throw}
use personal_blog_service.Config.{Environment, is_missing, is_value, is_test_env, number_of}

-- Where a client connects to; a port is `none` where it is NaN.
pub record Connection : Type 0 where
  pub host : Option String
  pub port : Option ℕ
  pub username : Option String
  pub password : Option String
  pub database : Option String

pub record RedisOptions : Type 0 where
  pub host : Option String
  pub port : Option ℕ
  pub password : Option String

pub record DataSourceOptions : Type 0 where
  pub connection : Connection
  pub synchronize : Bool
  pub migrations_run : Bool
  -- The Redis behind the cache of query results; without one there is no cache.
  pub cache : Option RedisOptions

-- An undefined value in a template literal.
abbrev or_undefined : Option String → String
or_undefined none = "undefined"
or_undefined (some value) = value

-- nodeEnv === 'test' ? '.test.env' : '.development.env', where an undefined NODE_ENV is 'development'.
abbrev pub env_file : Environment → String
env_file env = if is_value "test" (env "NODE_ENV") then ".test.env" else ".development.env"

-- `.${process.env.NODE_ENV}.env`, the file of the service in the same folder (src/app.module.ts).
abbrev pub service_env_file : Environment → String
service_env_file env = "." ⊕ or_undefined (env "NODE_ENV") ⊕ ".env"

abbrev pub required_db_keys : List String
required_db_keys = "DB_HOST" ∷ "DB_PORT" ∷ "DB_USERNAME" ∷ "DB_PASSWORD" ∷ "DB_DATABASE" ∷ []

abbrev pub missing_keys : Environment → List String
missing_keys env = select (λ key. is_missing (env key)) required_db_keys

module _ (number : String → Option ℕ) where
  abbrev pub connection_of : Environment → Connection
  connection_of env = record {
    host = env "DB_HOST";
    port = number_of number (env "DB_PORT");
    username = env "DB_USERNAME";
    password = env "DB_PASSWORD";
    database = env "DB_DATABASE";
  }

  abbrev pub redis_options : Environment → RedisOptions
  redis_options env = record {
    host = env "REDIS_HOST";
    port = number_of number (env "REDIS_PORT");
    password = env "REDIS_PASSWORD";
  }

  abbrev built : String → List String → Environment → Result DataSourceOptions
  built file [] env = ok (record {
    connection = connection_of env;
    synchronize = false;
    migrations_run = false;
    cache = none;
  })
  built file (key ∷ keys) env = throw (
      error "Error"
        ("[data-source] 필수 DB 환경변수 누락: " ⊕ join ", " (key ∷ keys) ⊕ " (envFile=" ⊕ file ⊕ ")"))

  -- `dotenv` adds what a file says to an environment.
  unfoldable pub data_source :
      (String → Environment → Environment) → Environment → Result DataSourceOptions
  data_source dotenv env =
      let file = env_file env in
      let loaded = dotenv file env in built file (missing_keys loaded) loaded

  unfoldable pub type_orm_config : Environment → DataSourceOptions
  type_orm_config env = record {
    connection = connection_of env;
    synchronize = false;
    migrations_run = false;
    cache = if is_test_env env then none else some (redis_options env);
  }
