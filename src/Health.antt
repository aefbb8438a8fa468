-- ===== src/Health.antt =====
-- src/health: the endpoint that says whether the database and Redis answer. The library that runs the
-- checks, @nestjs/terminus, and the check of the database are no part of the repository. The log
-- lines are left out.
pub mod Status
mod Tests
use personal_blog_service.Common.{ℕ, String, ◌⊕◌, ◌≡◌, Bool, true, false, List, [], ◌∷◌, ◌&&◌}

-- What getStatus(key, isUp) makes.
pub record IndicatorResult : Type 0 where
  pub key : String
  pub is_up : Bool

-- What is thrown: an Error with its message, or a value that is none.
pub data Raised : Type 0 where
  raised_error : String → Raised
  raised_value : Raised

-- error instanceof Error ? error.message : 'Unknown error'
abbrev pub message_of : Raised → String
message_of (raised_error message) = message
message_of raised_value = "Unknown error"

-- The outcome of client.ping().
pub data Ping : Type 0 where
  answered : Ping
  rejected : Raised → Ping

abbrev pub is_answered : Ping → Bool
is_answered answered = true
is_answered (rejected _) = false

-- The outcome of an indicator: its status, a HealthCheckError with one, or anything else.
pub data Indication : Type 0 where
  healthy : IndicatorResult → Indication
  unhealthy : String → IndicatorResult → Indication
  crashed : Raised → Indication

-- RedisHealthIndicator.isHealthy
unfoldable pub is_healthy : String → Ping → Indication
is_healthy key answered = healthy (record { key = key; is_up = true })
is_healthy key (rejected e) =
    unhealthy ("Redis health check failed: " ⊕ message_of e) (record { key = key; is_up = false })

-- The outcome of HealthCheckService.check: a report, a ServiceUnavailableException with one, or
-- anything else.
pub data Checked (Report : Type 0) : Type 0 where
  passed : Report → Checked Report
  unavailable : Report → Checked Report
  broken : Raised → Checked Report

abbrev pub has_passed : Indication → Bool
has_passed (healthy _) = true
has_passed (unhealthy _ _) = false
has_passed (crashed _) = false

abbrev pub all_passed : List Indication → Bool
all_passed [] = true
all_passed (i ∷ is) = has_passed i && all_passed is

abbrev pub is_passed : {Report : Type 0} → Checked Report → Bool
is_passed (passed _) = true
is_passed (unavailable _) = false
is_passed (broken _) = false

pub record Terminus : Type 1 where
  pub Report : Type 0
  pub check : List Indication → Checked Report

pub record TerminusLaws (t : Terminus) : Type 0 where
  -- It throws unless all indicators return.
  pub check_passed : (is : List Indication) → is_passed (t.check is) ≡ all_passed is

pub data Body (Report : Type 0) : Type 0 where
  report : Report → Body Report
  failure : String → Body Report

pub record Response (Report : Type 0) : Type 0 where
  pub status : ℕ
  pub body : Body Report

abbrev pub reply : {Report : Type 0} → Checked Report → Response Report
reply (passed result) = record { status = 200; body = report result }
reply (unavailable result) = record { status = 503; body = report result }
reply (broken e) = record { status = 503; body = failure (message_of e) }

-- HealthController.check, given what the two services answer.
unfoldable pub check : (t : Terminus) → Indication → Ping → Response t.Report
check t database ping = reply (t.check (database ∷ is_healthy "redis" ping ∷ []))
