-- ===== src/Idempotency.antt =====
-- src/idempotency/idempotency.service.ts: the store of Idempotency-Key records in Redis.
pub mod Laws
pub mod Up
use personal_blog_service.Common.{ℕ, String, ◌⊕◌, ◌≡◌, Bool, true, Option, none, some}
use personal_blog_service.Failure.Codes.{ErrorCode}
use personal_blog_service.Failure.Exceptions.{error}
use personal_blog_service.Exec.{Exec, Result, ok, throw, lift, gets, ◌>>=◌}
use personal_blog_service.Redis.{RedisClient, RedisClientLaws, Answer, answer, reject}
use personal_blog_service.Web.{World}

pub data IdempotencyState : Type 0 where
  pending completed : IdempotencyState

pub record IdempotencyRecord (Body : Type 0) : Type 0 where
  pub state : IdempotencyState
  pub method : String
  pub path : String
  pub processed_at : String
  pub status_code : Option ℕ
  pub response_body : Option Body
  pub failed : Option Bool
  pub error_code : Option ErrorCode
  pub message : Option String

-- JSON.stringify and JSON.parse on these records, whose bodies are JSON values; `none` is a
-- SyntaxError.
pub record Codec (Body Text : Type 0) : Type 0 where
  pub stringify : IdempotencyRecord Body → Text
  pub parse : Text → Option (IdempotencyRecord Body)

pub record CodecLaws {Body Text : Type 0} (c : Codec Body Text) : Type 0 where
  pub parse-stringify : (r : IdempotencyRecord Body) → c.parse (c.stringify r) ≡ some r

abbrev pub ttl_seconds : ℕ
ttl_seconds = 86400

unfoldable pub build_key : String → String → String
build_key user_id key = "idempotency:" ⊕ user_id ⊕ ":" ⊕ key

abbrev pub pending_record : {Body : Type 0} → String → String → String → IdempotencyRecord Body
pending_record method path date = record {
  state = pending;
  method = method;
  path = path;
  processed_at = date;
  status_code = none;
  response_body = none;
  failed = none;
  error_code = none;
  message = none;
}

abbrev pub completed_record :
    {Body : Type 0} → String → String → String → ℕ → Option Body → IdempotencyRecord Body
completed_record method path date status_code body = record {
  state = completed;
  method = method;
  path = path;
  processed_at = date;
  status_code = some status_code;
  response_body = body;
  failed = none;
  error_code = none;
  message = none;
}

abbrev pub failed_record :
    {Body : Type 0}
    → String
    → String
    → String
    → Option ErrorCode
    → Option String
    → IdempotencyRecord Body
failed_record method path date error_code message = record {
  state = completed;
  method = method;
  path = path;
  processed_at = date;
  status_code = none;
  response_body = none;
  failed = some true;
  error_code = error_code;
  message = message;
}

abbrev pub settled : {A : Type 0} → Answer A → Result A
settled (answer a) = ok a
settled (reject name message) = throw (error name message)

-- What the service and the interceptor stand on and the repository does not implement. `App` is
-- the state of the handlers.
pub record Backend : Type 1 where
  pub Body : Type 0
  pub Text : Type 0
  pub App : Type 0
  pub codec : Codec Body Text
  pub redis : RedisClient Text

pub record BackendLaws (b : Backend) : Type 0 where
  pub codec : CodecLaws b.codec
  pub redis : RedisClientLaws b.redis

module _ (b : Backend) where
  open b use {Body, Text, App, codec, redis}

  abbrev pub State : Type 0
  State = World redis.State App

  abbrev pub Action : Type 0 → Type 0
  Action = Exec State

  -- `await` of a command: a rejected promise is a throw.
  abbrev pub command : {A : Type 0} → (redis.State → Answer A × redis.State) → Action A
  command c w = let (a, r) = c w.redis in (settled a, record w { redis = r })

  -- JSON.parse
  abbrev pub parsed : Option (IdempotencyRecord Body) → Result (Option (IdempotencyRecord Body))
  parsed none = throw (error "SyntaxError" "Unexpected token in JSON")
  parsed (some r) = ok (some r)

  abbrev pub decoded : Option Text → Result (Option (IdempotencyRecord Body))
  decoded none = ok none
  decoded (some raw) = parsed (codec.parse raw)

  unfoldable pub get : String → String → Action (Option (IdempotencyRecord Body))
  get user_id key = do raw ← command (redis.get (build_key user_id key)); lift (decoded raw)

  unfoldable pub set_pending : String → String → String → String → Action Bool
  set_pending user_id key method path = do
    date ← gets (λ w. w.date)
    command (
        redis.set_nx_ex (build_key user_id key) (codec.stringify (pending_record method path date))
          ttl_seconds)

  unfoldable pub set_completed :
      String → String → String → String → ℕ → Option Body → Action (Unit {0})
  set_completed user_id key method path status_code body = do
    date ← gets (λ w. w.date)
    command (
        redis.set_ex (build_key user_id key)
          (codec.stringify (completed_record method path date status_code body)) ttl_seconds)

  unfoldable pub set_completed_failure :
      String → String → String → String → Option ErrorCode → Option String → Action (Unit {0})
  set_completed_failure user_id key method path error_code message = do
    date ← gets (λ w. w.date)
    command (
        redis.set_ex (build_key user_id key)
          (codec.stringify (failed_record method path date error_code message)) ttl_seconds)
