-- ===== src/Interceptor/Kept.antt =====
-- What the first request under a key leaves, and what a later one does while it is kept.
use personal_blog_service.Common.{
  ℕ, ◌*◌, ◌<◌, String, eq_iff, ◌≡◌, refl, sym, ap, ◌∙◌, true, Option, none,
}
use personal_blog_service.Failure.Exceptions.{Thrown, idempotent_replay}
use personal_blog_service.Exec.{throw, ok}
use personal_blog_service.Redis.{value_of}
use personal_blog_service.Web.{Request}
use personal_blog_service.Idempotency.{
  Backend, BackendLaws, IdempotencyRecord, State, Action, ttl_seconds, completed_record,
  failed_record, set_pending, set_completed, set_completed_failure,
}
use personal_blog_service.Idempotency.Laws.{held, after_get, get_of_absent, held-after_get}
use personal_blog_service.Idempotency.Up.{
  IsUp, IsStored, later, Holds-of_IsStored, Reads-of_IsUp, set_pending_of_IsUp,
  set_completed_of_IsUp, set_completed_failure_of_IsUp,
}
use personal_blog_service.Interceptor.{
  to_failure, on_record, on_lookup, on_acquired, on_success, on_failure, handle,
}
use personal_blog_service.Interceptor.Branches.{handle_found}

-- The world that the handler of the first request starts in: the lock is taken.
abbrev pub locked : (b : Backend) → String → String → Request → State b → State b
locked b uid key request w =
    (set_pending b uid key request.method request.path (after_get b uid key w)).1

-- The world of the second request, `ms` milliseconds after the first one ended.
abbrev pub second :
    (b : Backend) → String → String → Request → Action b (Option b.Body) → State b → ℕ → State b
second b uid key request next w ms = later b ms (handle b uid key request next w).1

module _ (b : Backend) (laws : BackendLaws b) (up : IsUp b) (uid key : String) (request : Request)
    (next : Action b (Option b.Body)) (w : State b) where
  -- The first request takes the lock and goes on as its owner.
  handle_first :
      held b uid key w ≡ none
      → handle b uid key request next w
        ≡ on_acquired b uid key request.method request.path next true (locked b uid key request w)
  unfolding handle on_lookup
  handle_first absent =
      let free : held b uid key (after_get b uid key w) ≡ none =
        held-after_get b laws uid key w uid key ∙ absent in
      rw
        (
          get_of_absent b laws uid key w absent (Reads-of_IsUp b laws up uid key w),
          set_pending_of_IsUp b laws up uid key request.method request.path (after_get b uid key w),
          free,
        )
        refl

  pub first_success :
      (body : Option b.Body) (done : State b)
      → held b uid key w ≡ none
      → next (locked b uid key request w) ≡ (ok body, done)
      → handle b uid key request next w ≡ (
        ok body,
        (set_completed b uid key request.method request.path done.status_code body done).1,
      )
  unfolding on_acquired on_success
  first_success body done absent ran =
      let stored =
        set_completed_of_IsUp b laws up uid key request.method request.path done done.status_code
          body in
      handle_first absent ∙ rw (ran, stored.0) refl

  pub first_failure :
      (err : Thrown) (done : State b)
      → held b uid key w ≡ none
      → next (locked b uid key request w) ≡ (throw err, done)
      → handle b uid key request next w ≡ (
        throw err,
        (set_completed_failure b uid key request.method request.path
            (to_failure err).error_code
            (to_failure err).message
            done).1,
      )
  unfolding on_acquired on_failure
  first_failure err done absent ran =
      let stored =
        set_completed_failure_of_IsUp b laws up uid key request.method request.path done
          (to_failure err).error_code (to_failure err).message in
      handle_first absent ∙ rw (ran, stored.0) refl

  -- The snapshots of the two outcomes.
  abbrev pub of_success : Option b.Body → State b → IdempotencyRecord b.Body
  of_success body done =
      completed_record request.method request.path done.date done.status_code body

  abbrev pub of_failure : Thrown → State b → IdempotencyRecord b.Body
  of_failure err done =
      failed_record request.method request.path done.date (to_failure err).error_code
        (to_failure err).message

  -- The first request has left the snapshot `r` with its whole lifetime.
  abbrev HasLeft : IdempotencyRecord b.Body → Type 0
  HasLeft r = IsStored b uid key r (handle b uid key request next w).1

  pub left_success :
      (body : Option b.Body) (done : State b)
      → held b uid key w ≡ none
      → next (locked b uid key request w) ≡ (ok body, done)
      → HasLeft (of_success body done)
  left_success body done absent ran =
      rw (first_success body done absent ran)
        (set_completed_of_IsUp b laws up uid key request.method request.path done done.status_code
          body).1

  pub left_failure :
      (err : Thrown) (done : State b)
      → held b uid key w ≡ none
      → next (locked b uid key request w) ≡ (throw err, done)
      → HasLeft (of_failure err done)
  left_failure err done absent ran =
      rw (first_failure err done absent ran)
        (set_completed_failure_of_IsUp b laws up uid key request.method request.path done
          (to_failure err).error_code (to_failure err).message).1

  -- The record of the first request is still what the key holds.
  abbrev pub IsKept : State b → Type 0
  IsKept w' =
      value_of (held b uid key w') ≡ value_of (held b uid key (handle b uid key request next w).1)

  -- A snapshot is kept until its lifetime has passed.
  pub later-IsKept :
      (r : IdempotencyRecord b.Body) (ms : ℕ)
      → ms < ttl_seconds * 1000
      → HasLeft r
      → IsKept (second b uid key request next w ms)
  later-IsKept r ms soon left =
      Holds-of_IsStored b laws up uid key r (handle b uid key request next w).1 ms soon left
      ∙ sym (ap value_of left)

  module _ (request' : Request) (next' : Action b (Option b.Body)) where
    found_kept :
        (r : IdempotencyRecord b.Body) (w' : State b)
        → HasLeft r
        → IsKept w'
        → handle b uid key request' next' w'
          ≡ on_record b request'.method request'.path r (after_get b uid key w')
    found_kept r w' left kept =
        handle_found b request' next' laws uid key r w' (kept ∙ ap value_of left)
          (Reads-of_IsUp b laws up uid key w')

    pub kept_success :
        (body : Option b.Body) (done w' : State b)
        → held b uid key w ≡ none
        → next (locked b uid key request w) ≡ (ok body, done)
        → request.method ≡ request'.method
        → request.path ≡ request'.path
        → IsKept w'
        → handle b uid key request' next' w' ≡ (ok body, after_get b uid key w')
    unfolding on_record
    kept_success body done w' absent ran m p kept =
        found_kept (of_success body done) w' (left_success body done absent ran) kept
        ∙ rw ((eq_iff _ _).1 m, (eq_iff _ _).1 p) refl

    pub kept_failure :
        (err : Thrown) (done w' : State b)
        → held b uid key w ≡ none
        → next (locked b uid key request w) ≡ (throw err, done)
        → request.method ≡ request'.method
        → request.path ≡ request'.path
        → IsKept w'
        → handle b uid key request' next' w' ≡ (
          throw (idempotent_replay (to_failure err).error_code (to_failure err).message),
          after_get b uid key w',
        )
    unfolding on_record
    kept_failure err done w' absent ran m p kept =
        found_kept (of_failure err done) w' (left_failure err done absent ran) kept
        ∙ rw ((eq_iff _ _).1 m, (eq_iff _ _).1 p) refl
