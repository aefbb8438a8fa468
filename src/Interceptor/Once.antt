-- ===== src/Interceptor/Once.antt =====
-- What a request through the interceptor does to the state of the handlers.
use personal_blog_service.Common.{
  String, ◌≡◌, refl, sym, ap, ◌∙◌, Bool, true, false, Option, none, some, if◌then◌else◌,
}
use personal_blog_service.Failure.Exceptions.{bad_request, idempotent_replay}
use personal_blog_service.Exec.{
  Result, ok, throw, pure, raise, lift, continue, continue-lift, caught,
}
use personal_blog_service.Web.{Request}
use personal_blog_service.Idempotency.{
  Backend, State, Action, IdempotencyRecord, command, decoded, build_key, get, set_pending,
  set_completed, set_completed_failure,
}
use personal_blog_service.Interceptor.{
  is_uuid_v4, is_safe_method, extract_key, extract_auth_user_id, in_progress, on_record,
  on_acquired, on_success, on_failure, on_lookup, handle, for_user, for_key, intercept,
}
use personal_blog_service.Interceptor.Outcome.{on_success_lem, on_failure_lem}

-- What a request that starts in `w` and ends in `out` has done with its handler.
pub data Ran (b : Backend) (next : Action b (Option b.Body)) (w : State b)
    (out : Result (Option b.Body) × State b) : Type 0 where
  skipped : out.1.app ≡ w.app → Ran b next w out
  ran_once :
      (w' : State b)
      → w'.app ≡ w.app
      → out.0 ≡ (next w').0
      → out.1.app ≡ (next w').1.app
      → Ran b next w out

module _ (b : Backend) (next : Action b (Option b.Body)) (w : State b) where
  abbrev IsRun : Result (Option b.Body) × State b → Type 0
  IsRun = Ran b next w

  module _ (uid key method path : String) where
    ended :
        (r : Result (Option b.Body)) (w' s : State b)
        → w'.app ≡ w.app
        → (next w').0 ≡ r
        → (next w').1 ≡ s
        → IsRun (
            let (q, t) = continue (on_success b uid key method path) r s in
            caught (on_failure b uid key method path) q t)
    unfolding set_completed set_completed_failure
    ended (ok body) w' s same r e =
        rw (on_success_lem b uid key method path body s)
          (ran_once w' same (sym r) (ap (λ x. x.app) (sym e)))
    ended (throw err) w' s same r e =
        rw (on_failure_lem b uid key method path err s)
          (ran_once w' same (sym r) (ap (λ x. x.app) (sym e)))

    acquired :
        (won : Bool) (w' : State b)
        → w'.app ≡ w.app
        → IsRun (on_acquired b uid key method path next won w')
    unfolding on_acquired in_progress
    acquired false w' same = skipped same
    acquired true w' same = ended (next w').0 w' (next w').1 same refl refl

    -- The answer to SET NX.
    requested :
        (r : Result Bool) (w' : State b)
        → w'.app ≡ w.app
        → IsRun (continue (on_acquired b uid key method path next) r w')
    requested (ok won) w' same = acquired won w' same
    requested (throw _) w' same = skipped same

    replay :
        (conflict is_going has_failed : Bool) (r : IdempotencyRecord b.Body) (w' : State b)
        → w'.app ≡ w.app
        → IsRun (
            (if conflict
                then raise (bad_request "Idempotency-Key was already used for a different request.")
                else if is_going
                then in_progress b
                else if has_failed
                then raise (idempotent_replay r.error_code r.message)
                else pure r.response_body)
              w')
    unfolding in_progress
    replay true is_going has_failed r w' same = skipped same
    replay false true has_failed r w' same = skipped same
    replay false false true r w' same = skipped same
    replay false false false r w' same = skipped same

    looked_up :
        (r : Result (Option (IdempotencyRecord b.Body))) (w' : State b)
        → w'.app ≡ w.app
        → IsRun (continue (on_lookup b uid key method path next) r w')
    unfolding on_lookup on_record set_pending
    looked_up (throw _) w' same = skipped same
    looked_up (ok (some r)) w' same = replay _ _ _ r w' same
    looked_up (ok none) w' same =
        let (answered, w'') = set_pending b uid key method path w' in requested answered w'' same

    decoded_app :
        (answered : Result (Option b.Text)) (w' : State b)
        → w'.app ≡ w.app
        → (continue (λ raw. lift (decoded b raw)) answered w').1.app ≡ w.app
    decoded_app answered w' same = ap (λ x. x.app) (continue-lift (decoded b) answered w') ∙ same

  handle-Ran : (uid key : String) (request : Request) → IsRun (handle b uid key request next w)
  unfolding handle get
  handle-Ran uid key request =
      let (r, w') = get b uid key w in
      looked_up uid key request.method request.path r w' (
        let (answered, w'') = command b (b.redis.get (build_key uid key)) w in
        decoded_app uid key request.method request.path answered w'' refl)

  user-Ran :
      (user : Option String) (key : String) (request : Request)
      → IsRun (for_user b user key request next w)
  user-Ran none key request = ran_once w refl refl refl
  user-Ran (some uid) key request = handle-Ran uid key request

  keyed-Ran :
      (good : Bool) (key : String) (request : Request)
      → IsRun (
          (if good
              then for_user b (extract_auth_user_id request) key request next
              else raise (bad_request "Idempotency-Key must be a valid UUID v4."))
            w)
  keyed-Ran true key request = user-Ran (extract_auth_user_id request) key request
  keyed-Ran false key request = skipped refl

  key-Ran : (key : Option String) (request : Request) → IsRun (for_key b key request next w)
  key-Ran none request = ran_once w refl refl refl
  key-Ran (some key) request = keyed-Ran (is_uuid_v4 key) key request

  either-Ran :
      (skip safe : Bool) (request : Request)
      → IsRun (
          (if skip
              then next
              else if safe
              then next
              else for_key b (extract_key request) request next)
            w)
  either-Ran true safe request = ran_once w refl refl refl
  either-Ran false true request = ran_once w refl refl refl
  either-Ran false false request = key-Ran (extract_key request) request

  -- Whatever the request, its key and the answers of Redis, the interceptor leaves the state of the
  -- handlers as it was, or its outcome and this state are those of one run of the handler from the
  -- state before.
  pub intercept-Ran : (skip : Bool) (request : Request) → IsRun (intercept b skip request next w)
  unfolding intercept
  intercept-Ran skip request = either-Ran skip (is_safe_method request.method) request
