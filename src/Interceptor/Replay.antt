-- ===== src/Interceptor/Replay.antt =====
-- The promise of the Idempotency-Key: the first request runs its handler once, and every later
-- request with the same key, method and path gets the same outcome without running its own.
use personal_blog_service.Common.{ℕ, ◌*◌, ◌<◌, String, ◌≡◌, ap, Option, none}
use personal_blog_service.Failure.Exceptions.{Thrown, idempotent_replay}
use personal_blog_service.Exec.{throw, ok}
use personal_blog_service.Web.{Request}
use personal_blog_service.Idempotency.{Backend, BackendLaws, State, Action, ttl_seconds}
use personal_blog_service.Idempotency.Laws.{held, after_get}
use personal_blog_service.Idempotency.Up.{IsUp}
use personal_blog_service.Interceptor.{to_failure, handle}
use personal_blog_service.Interceptor.Kept.{
  locked, second, first_success, first_failure, of_success, of_failure, left_success, left_failure,
  kept_success, kept_failure, later-IsKept,
}

module _ (b : Backend) (laws : BackendLaws b) (up : IsUp b) (uid key : String) (request : Request)
    (next : Action b (Option b.Body)) (w : State b) where
  module _ (request' : Request) (next' : Action b (Option b.Body)) (ms : ℕ) where
    -- The first request returns what its handler returns. For 24 hours, a request with the same
    -- key, method and path gets the same body and runs no handler: all it does is one GET.
    pub replay_success :
        (body : Option b.Body) (done : State b)
        → held b uid key w ≡ none
        → next (locked b uid key request w) ≡ (ok body, done)
        → request.method ≡ request'.method
        → request.path ≡ request'.path
        → ms < ttl_seconds * 1000
        → ((handle b uid key request next w).0 ≡ ok body)
          × (handle b uid key request' next' (second b uid key request next w ms)
              ≡ (ok body, after_get b uid key (second b uid key request next w ms)))
    replay_success body done absent ran m p soon = (
      ap (λ x. x.0) (first_success b laws up uid key request next w body done absent ran),
      kept_success b laws up uid key request next w request' next' body done
          (second b uid key request next w ms) absent ran m p
          (later-IsKept b laws up uid key request next w
            (of_success b laws up uid key request next w body done) ms soon
            (left_success b laws up uid key request next w body done absent ran)),
    )

    -- The first request throws what its handler throws. For 24 hours, a request with the same key,
    -- method and path throws the snapshot of that error and runs no handler.
    pub replay_failure :
        (err : Thrown) (done : State b)
        → held b uid key w ≡ none
        → next (locked b uid key request w) ≡ (throw err, done)
        → request.method ≡ request'.method
        → request.path ≡ request'.path
        → ms < ttl_seconds * 1000
        → ((handle b uid key request next w).0 ≡ throw err)
          × (handle b uid key request' next' (second b uid key request next w ms) ≡ (
            throw (idempotent_replay (to_failure err).error_code (to_failure err).message),
            after_get b uid key (second b uid key request next w ms),
          ))
    replay_failure err done absent ran m p soon = (
      ap (λ x. x.0) (first_failure b laws up uid key request next w err done absent ran),
      kept_failure b laws up uid key request next w request' next' err done
          (second b uid key request next w ms) absent ran m p
          (later-IsKept b laws up uid key request next w
            (of_failure b laws up uid key request next w err done) ms soon
            (left_failure b laws up uid key request next w err done absent ran)),
    )
