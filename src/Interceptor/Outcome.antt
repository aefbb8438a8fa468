-- ===== src/Interceptor/Outcome.antt =====
-- What the owner of the lock answers, and what a client sees of a failure and of its replay.
use personal_blog_service.Common.{eq_iff}
use personal_blog_service.Common.{String, ◌≡◌, refl, ◌≢◌, ◌⊎◌, inl, inr, Option, true, arith}
use personal_blog_service.Failure.Exceptions.{Thrown, base, http, error, idempotent_replay}
use personal_blog_service.Failure.Filters.{respond}
use personal_blog_service.Exec.{Result, throw, ok, pure, raise, continue, caught, swallow}
use personal_blog_service.Idempotency.{Backend, State, Action, set_completed, set_completed_failure}
use personal_blog_service.Interceptor.{to_failure, on_acquired, on_success, on_failure}

module _ (b : Backend) (uid key method path : String) where
  pub on_success_lem :
      (body : Option b.Body) (s : State b)
      → on_success b uid key method path body s
        ≡ (ok body, (set_completed b uid key method path s.status_code body s).1)
  unfolding on_success
  on_success_lem body s =
      swallow (pure body) (set_completed b uid key method path s.status_code body) s

  pub on_failure_lem :
      (err : Thrown) (s : State b)
      → on_failure b uid key method path err s ≡ (
        throw err,
        (set_completed_failure b uid key method path
            (to_failure err).error_code
            (to_failure err).message
            s).1,
      )
  unfolding on_failure
  on_failure_lem err s =
      swallow (raise err)
        (set_completed_failure b uid key method path (to_failure err).error_code
          (to_failure err).message)
        s

  ended : Result (Option b.Body) → State b → Result (Option b.Body) × State b
  ended r s =
      let (q, t) = continue (on_success b uid key method path) r s in
      caught (on_failure b uid key method path) q t

  ended_outcome : (r : Result (Option b.Body)) (s : State b) → (ended r s).0 ≡ r
  unfolding ended
  ended_outcome (ok body) s = rw (on_success_lem body s) refl
  ended_outcome (throw err) s = rw (on_failure_lem err s) refl

  -- Whatever Redis answers when the snapshot is stored, a rejection included, the owner of the
  -- lock returns or throws exactly what its handler returns or throws.
  pub on_acquired_outcome :
      (next : Action b (Option b.Body)) (w : State b)
      → (on_acquired b uid key method path next true w).0 ≡ (next w).0
  unfolding on_acquired ended
  on_acquired_outcome next w = ended_outcome (next w).0 (next w).1

-- The exceptions of the application and of the framework; what is left are other errors.
abbrev pub IsKnown : Thrown → Type 0
IsKnown (base _) = Unit
IsKnown (http _ _) = Unit
IsKnown (error _ _) = ⊥

-- What a replay of the snapshot throws.
abbrev pub replayed : Thrown → Thrown
replayed err = idempotent_replay (to_failure err).error_code (to_failure err).message

-- A known exception and its replay are the same response to the client.
pub respond-replayed : (err : Thrown) → IsKnown err → respond (replayed err) ≡ respond err
unfolding to_failure respond
respond-replayed (base e) _ = refl
respond-replayed (http status response) _ = refl
respond-replayed (error _ _) h = absurd h

-- Any other error.
abbrev pub IsOther : Thrown → Type 0
IsOther err = (name : String) × (message : String) × (err ≡ error name message)

pub respond-replayed_or : (err : Thrown) → (respond (replayed err) ≡ respond err) ⊎ IsOther err
respond-replayed_or (base e) = inl (respond-replayed (base e) tt)
respond-replayed_or (http status response) = inl (respond-replayed (http status response) tt)
respond-replayed_or (error name message) = inr (name, message, refl)

-- Any other error and its replay are two different responses: the messages differ in case and
-- punctuation.
pub respond-replayed_ne :
    (name message : String) → respond (replayed (error name message)) ≢ respond (error name message)
unfolding to_failure respond
respond-replayed_ne name message e =
    ground (arith, eq_iff "Internal server error" "Internal Server Error!")
