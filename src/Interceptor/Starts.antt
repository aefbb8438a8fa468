-- ===== src/Interceptor/Starts.antt =====
-- How often the code of a request under a key starts its handler between two awaits.
use personal_blog_service.Common.{
  ℕ, zero, suc, String, ◌≡◌, refl, ◌∙◌, ap, Bool, true, false, Option, none, some, if◌then◌else◌,
}
use personal_blog_service.Exec.{Result, ok, throw, pure, raise, caught, continue}
use personal_blog_service.Failure.Exceptions.{Thrown, bad_request, idempotent_replay}
use personal_blog_service.Interceptor.{in_progress, on_record, on_failure, on_acquired, on_lookup}
use personal_blog_service.Interceptor.Outcome.{on_success_lem}
use personal_blog_service.Idempotency.{
  Backend, State, Action, IdempotencyRecord, set_pending, set_completed,
}

-- The server with a state of the handlers that counts their starts.
abbrev pub counted : Backend → Backend
counted c = record c { App = ℕ }

-- A handler that counts itself.
abbrev pub counting : (c : Backend) → Action (counted c) (Option c.Body)
counting c w = (ok none, record w { app = suc w.app })

module _ (c : Backend) (uid key method path : String) where
  -- How often the code that follows an await starts the handler, from a state of the world.
  abbrev pub starts_of :
      {A : Type 0} → (A → Action (counted c) (Option c.Body)) → Result A → State (counted c) → ℕ
  starts_of rest r w = (continue rest r (record w { app = zero })).1.app

  -- With the SET NX and after it, from the world before it.
  unfoldable pub lock_starts : State (counted c) → ℕ
  lock_starts w =
      (on_lookup (counted c) uid key method path (counting c) none (record w { app = zero })).1.app

  -- After the GET, unless there is an await before it: that of the SET NX.
  unfoldable pub look_starts : Result (Option (IdempotencyRecord c.Body)) → State (counted c) → ℕ
  look_starts (ok none) w = 0
  look_starts (ok (some r)) w =
      starts_of (on_lookup (counted c) uid key method path (counting c)) (ok (some r)) w
  look_starts (throw e) w =
      starts_of (on_lookup (counted c) uid key method path (counting c)) (throw e) w

module _ (c : Backend) (uid key method path : String) where
  found_starts :
      (conflict is_going has_failed : Bool) (r : IdempotencyRecord c.Body) (w : State (counted c))
      → w.app ≡ zero
      → ((if conflict
            then raise (bad_request "Idempotency-Key was already used for a different request.")
            else if is_going
            then in_progress (counted c)
            else if has_failed
            then raise (idempotent_replay r.error_code r.message)
            else pure r.response_body)
          w).1.app
        ≡ zero
  unfolding in_progress
  found_starts true is_going has_failed r w h = h
  found_starts false true has_failed r w h = h
  found_starts false false true r w h = h
  found_starts false false false r w h = h

  -- The code after the GET does not start the handler before its next await.
  pub look_starts-eq-zero :
      (found : Result (Option (IdempotencyRecord c.Body))) (w : State (counted c))
      → look_starts c uid key method path found w ≡ 0
  unfolding look_starts on_lookup on_record
  look_starts-eq-zero (ok none) w = refl
  look_starts-eq-zero (ok (some r)) w = found_starts _ _ _ r (record w { app = zero }) refl
  look_starts-eq-zero (throw e) w = refl

  -- After the SET NX, the winner starts its handler once and nobody else does.
  pub acquired_starts : Result Bool → State (counted c) → ℕ
  acquired_starts =
      starts_of c uid key method path (on_acquired (counted c) uid key method path (counting c))

  lock_starts-acquired :
      (v : State (counted c))
      → lock_starts c uid key method path v
        ≡ acquired_starts
            (set_pending (counted c) uid key method path v).0
            (set_pending (counted c) uid key method path v).1
  unfolding lock_starts on_lookup set_pending acquired_starts
  lock_starts-acquired v = refl

  pub won_starts : (w : State (counted c)) → acquired_starts (ok true) w ≡ 1
  unfolding acquired_starts on_acquired set_completed
  won_starts w =
      ap (λ out. (caught (on_failure (counted c) uid key method path) out.0 out.1).1.app)
        (on_success_lem (counted c) uid key method path none (record w { app = 1 }))

  pub lost_starts : (w : State (counted c)) → acquired_starts (ok false) w ≡ 0
  unfolding acquired_starts on_acquired in_progress
  lost_starts w = refl

  pub failed_starts : (e : Thrown) (w : State (counted c)) → acquired_starts (throw e) w ≡ 0
  unfolding acquired_starts
  failed_starts e w = refl

  -- How often the handler is started, by the answer to the SET NX.
  pub lock_starts_of :
      (v : State (counted c)) (won : Result Bool)
      → (set_pending (counted c) uid key method path v).0 ≡ won
      → lock_starts c uid key method path v
        ≡ acquired_starts won (set_pending (counted c) uid key method path v).1
  lock_starts_of v won h =
      lock_starts-acquired v
      ∙ ap (λ r. acquired_starts r (set_pending (counted c) uid key method path v).1) h
