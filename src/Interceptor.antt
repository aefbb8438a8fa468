-- ===== src/Interceptor.antt =====
-- src/interceptor/idempotency-key.interceptor.ts: the branches R1 to R4 of the Idempotency-Key
-- handling. The request's handler, `next.handle()`, is an argument. A body is `none` where it is
-- undefined. The promises and Observables run in the order in which the code chains them.
pub mod Branches
pub mod Kept
pub mod Replay
pub mod Outcome
pub mod Once
pub mod Starts
pub mod Race
pub mod Exclusion
pub mod Keys
mod Tests
use personal_blog_service.Common.{
  ℕ, String, str_eq, Bool, true, false, ◌||◌, ◌&&◌, not, Option, none, some, List, [], ◌∷◌, leb,
  ◌==◌, codes, if◌then◌else◌,
}
use personal_blog_service.Failure.Codes
use personal_blog_service.Failure.Codes.{ErrorCode}
use personal_blog_service.Failure.Exceptions.{
  Thrown, base, http, error, bad_request, idempotency_in_progress, idempotent_replay,
}
use personal_blog_service.Failure.Filters.{
  http_status_to_error_code, or_internal, extract_http_exception_message,
}
use personal_blog_service.Exec.{
  Exec, Result, ok, throw, pure, raise, lift, gets, modify, catch_error, ◌>>=◌, ◌>>◌,
}
use personal_blog_service.Web.{World, Request, first_value}
use personal_blog_service.Idempotency
use personal_blog_service.Idempotency.{
  IdempotencyState, pending, completed, IdempotencyRecord, Backend, State, Action, get, set_pending,
  set_completed, set_completed_failure,
}

-- The characters that a place of UUID_V4_REGEX accepts, the flag `i` included.
pub data CharClass : Type 0 where
  hex dash four variant : CharClass

abbrev is_hex : ℕ → Bool
is_hex c = leb b'0' c && leb c b'9' || leb b'a' c && leb c b'f' || leb b'A' c && leb c b'F'

abbrev accepts : CharClass → ℕ → Bool
accepts hex c = is_hex c
accepts dash c = c == b'-'
accepts four c = c == b'4'
accepts variant c = c == b'8' || c == b'9' || c == b'a' || c == b'b' || c == b'A' || c == b'B'

abbrev uuid_v4 : List CharClass
uuid_v4 =
    hex ∷ hex ∷ hex ∷ hex ∷ hex ∷ hex ∷ hex ∷ hex ∷ dash ∷ hex ∷ hex ∷ hex ∷ hex ∷ dash ∷ four ∷ hex
    ∷ hex ∷ hex ∷ dash ∷ variant ∷ hex ∷ hex ∷ hex ∷ dash ∷ hex ∷ hex ∷ hex ∷ hex ∷ hex ∷ hex ∷ hex
    ∷ hex ∷ hex ∷ hex ∷ hex ∷ hex ∷ []

-- A regex of single-character classes between `^` and `$`.
matches : List CharClass → List ℕ → Bool
matches [] [] = true
matches [] (_ ∷ _) = false
matches (_ ∷ _) [] = false
matches (p ∷ ps) (c ∷ cs) = accepts p c && matches ps cs

-- UUID_V4_REGEX.test(key)
unfoldable pub is_uuid_v4 : String → Bool
unfolding matches
is_uuid_v4 key = matches uuid_v4 (codes key)

-- SAFE_METHODS.has(method)
unfoldable pub is_safe_method : String → Bool
is_safe_method method =
    str_eq method "GET" || str_eq method "HEAD" || str_eq method "OPTIONS" || str_eq method "TRACE"

unfoldable pub extract_key : Request → Option String
unfolding first_value
extract_key request = first_value request.idempotency_key

unfoldable pub extract_auth_user_id : Request → Option String
unfolding first_value
extract_auth_user_id request = first_value request.authenticated_user

pub record Snapshot : Type 0 where
  pub error_code : Option ErrorCode
  pub message : Option String

-- What is cached of a throw of the handler.
unfoldable pub to_failure : Thrown → Snapshot
unfolding http_status_to_error_code extract_http_exception_message
to_failure (base e) = record { error_code = e.error_code; message = e.message }
to_failure (http status response) = record {
  error_code = some (or_internal (http_status_to_error_code status));
  message = some (extract_http_exception_message response);
}
to_failure (error _ _) = record {
  error_code = some Codes.common_internal_error;
  message = some "Internal server error";
}

abbrev pub is_pending : IdempotencyState → Bool
is_pending pending = true
is_pending completed = false

abbrev pub is_truthy : Option Bool → Bool
is_truthy none = false
is_truthy (some b) = b

module _ (b : Backend) where
  open b use {Body}

  -- response.setHeader('Retry-After', '5') and the throw after it.
  unfoldable pub in_progress : Action b (Option Body)
  in_progress = do
    modify (λ w. record w { headers = ("Retry-After", "5") ∷ w.headers })
    raise idempotency_in_progress

  -- A record was found: conflict, R4 or R3. The handler is not entered.
  unfoldable pub on_record : String → String → IdempotencyRecord Body → Action b (Option Body)
  on_record method path r =
      if not (str_eq r.method method) || not (str_eq r.path path)
      then raise (bad_request "Idempotency-Key was already used for a different request.")
      else if is_pending r.state
      then in_progress
      else if is_truthy r.failed
      then raise (idempotent_replay r.error_code r.message)
      else pure r.response_body

  -- The handler has returned `body`: the snapshot is stored, and a rejected store is swallowed.
  unfoldable pub on_success :
      String → String → String → String → Option Body → Action b (Option Body)
  on_success uid key method path body = do
    status_code ← gets (λ w. w.status_code)
    catch_error (λ _. pure tt) (set_completed b uid key method path status_code body)
    pure body

  -- Something was thrown in the handler: the snapshot is stored and the error goes on.
  unfoldable pub on_failure : String → String → String → String → Thrown → Action b (Option Body)
  unfolding to_failure
  on_failure uid key method path err = do
    let failure = to_failure err
    catch_error (λ _. pure tt)
        (set_completed_failure b uid key method path failure.error_code failure.message)
    raise err

  -- The outcome of SET NX: the lost race is R4, the won one is R2.
  unfoldable pub on_acquired :
      String → String → String → String → Action b (Option Body) → Bool → Action b (Option Body)
  on_acquired uid key method path next false = in_progress
  on_acquired uid key method path next true =
      catch_error (on_failure uid key method path)
        (do body ← next; on_success uid key method path body)

  -- The outcome of GET.
  unfoldable pub on_lookup :
      String
      → String
      → String
      → String
      → Action b (Option Body)
      → Option (IdempotencyRecord Body)
      → Action b (Option Body)
  on_lookup uid key method path next (some r) = on_record method path r
  on_lookup uid key method path next none = do
    acquired ← set_pending b uid key method path
    on_acquired uid key method path next acquired

  -- The key and the user are there.
  unfoldable pub handle :
      String → String → Request → Action b (Option Body) → Action b (Option Body)
  handle uid key request next = do
    found ← get b uid key
    on_lookup uid key request.method request.path next found

  abbrev pub for_user :
      Option String → String → Request → Action b (Option Body) → Action b (Option Body)
  for_user none key request next = next
  for_user (some uid) key request next = handle uid key request next

  abbrev pub for_key : Option String → Request → Action b (Option Body) → Action b (Option Body)
  for_key none request next = next
  for_key (some key) request next =
      if is_uuid_v4 key
      then for_user (extract_auth_user_id request) key request next
      else raise (bad_request "Idempotency-Key must be a valid UUID v4.")

  -- `skip` is the metadata of `@SkipIdempotency()`.
  unfoldable pub intercept : Bool → Request → Action b (Option Body) → Action b (Option Body)
  intercept skip request next =
      if skip
      then next
      else if is_safe_method request.method
      then next
      else for_key (extract_key request) request next
