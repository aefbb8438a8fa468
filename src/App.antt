-- ===== src/App.antt =====
-- src/app.module.ts: a request passes AuthGuard, CustomThrottlerGuard and IdempotencyKeyInterceptor,
-- in this order, and then the method of a controller, which is an argument.
pub mod Entry
pub mod Owners
pub mod Replay
pub mod Refused
mod Tests
use personal_blog_service.Common.{String, Bool, true, false, Option, none, some}
use personal_blog_service.Failure.Exceptions.{Thrown}
use personal_blog_service.Exec.{Exec, Result, ok, throw, raise, ◌>>=◌, ◌>>◌}
use personal_blog_service.Redis.{RedisClient}
use personal_blog_service.Web.{World, Request, HeaderValue, single}
use personal_blog_service.Throttler.{get_tracker}
use personal_blog_service.Idempotency.{Backend, Codec}
use personal_blog_service.Interceptor.{intercept}
use personal_blog_service.Auth.Platform as Auth
use personal_blog_service.Auth.Platform.{Platform}
use personal_blog_service.Auth.Guard.{GuardRequest, Route, can_activate}
use personal_blog_service.Controllers.{SuccessResponse}

-- The states of the accounts, of the throttler, and of Redis, the response and the tables.
pub record Server (A L W : Type 0) : Type 0 where
  pub store : A
  pub limits : L
  pub world : W

-- The header as those after the guard read it.
abbrev pub header_of : Option String → Option HeaderValue
header_of none = none
header_of (some uid) = some (single uid)

-- What is around the code of the repository: what the framework throws when a guard answers false,
-- its throttler guard behind the tracker that the repository chooses, JSON and Redis.
pub record Framework : Type 1 where
  pub forbidden : Thrown
  pub Limits : Type 0
  pub throttle : String → Exec Limits (Unit {0})
  pub Body : Type 0
  pub Text : Type 0
  pub codec : Codec Body Text
  pub redis : RedisClient Text
  -- The body that a response is sent as.
  pub body_of : SuccessResponse → Option Body

-- A request: what the guard reads, what the interceptor reads, the address and the route's metadata.
pub record Incoming : Type 0 where
  pub route : Route
  pub skip_idempotency : Bool
  pub ip : String
  pub credentials : GuardRequest
  pub request : Request

-- A method of a controller: what it does for the user in the trusted header.
abbrev pub Method : Type 0 → Type 0
Method Tables = Option String → Exec Tables SuccessResponse

module _ (f : Framework) (p : Platform) (Tables : Type 0) where
  open f use {forbidden, Limits, throttle, Body, redis, body_of}

  abbrev pub backend : Backend
  backend = record { Body = Body; Text = f.Text; App = Tables; codec = f.codec; redis = redis }

  abbrev pub State : Type 0
  State = Server (Auth.State p) Limits (World redis.State Tables)

  abbrev pub Action : Type 0 → Type 0
  Action = Exec State

  -- The outcome of a guard.
  abbrev pub proceed : {A : Type 0} → Action A → Result Bool → Action A
  proceed next (ok true) = next
  proceed next (ok false) = raise forbidden
  proceed next (throw e) = raise e

  abbrev pub throttled : String → Action (Unit {0})
  throttled tracker s = let (r, l) = throttle tracker s.limits in (r, record s { limits = l })

  abbrev pub sent : Result SuccessResponse → Result (Option Body)
  sent (ok response) = ok (body_of response)
  sent (throw e) = throw e

  -- The controller as the handler of the interceptor.
  abbrev pub controller :
      Method Tables → Option String → Exec (World redis.State Tables) (Option Body)
  controller serve caller v = let (r, q) = serve caller v.app in (sent r, record v { app = q })

  abbrev pub intercepted : Incoming → Method Tables → Option String → Action (Option Body)
  intercepted i serve caller s =
      let headed = record i.request { authenticated_user = header_of caller } in
      let (r, v) = intercept backend i.skip_idempotency headed (controller serve caller) s.world in
      (r, record s { world = v })

  -- What follows AuthGuard, with the trusted header that it left.
  abbrev pub after_guard : Incoming → Method Tables → Option String → Action (Option Body)
  after_guard i serve caller = do
    throttled (get_tracker (header_of caller) i.ip)
    intercepted i serve caller

  unfoldable pub handle : Incoming → Method Tables → Action (Option Body)
  handle i serve s =
      let (r, c) = can_activate p i.route (record { request = i.credentials; store = s.store }) in
      proceed (after_guard i serve c.request.authenticated_user) r (record s { store = c.store })
