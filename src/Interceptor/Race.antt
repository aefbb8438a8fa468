-- ===== src/Interceptor/Race.antt =====
-- Concurrent requests under one key of one user. Each await is a point where the others may run,
-- so a request is a sequence of steps: the GET, the SET NX, the handler and the SET of the
-- snapshot; `entries` counts how often a handler was started.
use native.Mathlib.Nat.{add-zero}
use mathlib.Core.Path.{subst}
use personal_blog_service.Common.{eq_refl}
use personal_blog_service.Common.{
  ℕ, ◌+◌, ◌≤◌, String, ◌≡◌, refl, ◌∙◌, sym, ap, ◌⊎◌, inl, inr, Bool, true, false, Option, none,
  some, arith, zero, suc,
}
use personal_blog_service.Exec.{Result, ok, throw, continue-lift}
use personal_blog_service.Interceptor.Starts.{
  counted, lock_starts, look_starts, look_starts-eq-zero, won_starts, lost_starts, failed_starts,
  lock_starts_of,
}
use personal_blog_service.Redis.{Answer, answer, reject, is_absent}
use personal_blog_service.Idempotency.{
  Backend, BackendLaws, State, IdempotencyRecord, settled, build_key, decoded, get, set_pending,
  set_completed, set_completed_failure,
}
use personal_blog_service.Failure.Codes.{ErrorCode}
use personal_blog_service.Idempotency.Laws.{held, after_get, held-after_get}

-- Where a request stands: before its GET, after a GET that found nothing, in its handler, before
-- the SET of its snapshot, or answered.
pub data Phase : Type 0 where
  arrived missed running ran answered : Phase

-- Where a request goes on whose code starts its handler so many times: with none, it is answered.
abbrev pub after_starts : ℕ → Phase
after_starts zero = answered
after_starts (suc _) = running

-- After the GET: a key that is absent goes on to the lock.
abbrev pub after_look : {A : Type 0} → Result (Option A) → ℕ → Phase
after_look (ok none) starts = missed
after_look (ok (some _)) starts = after_starts starts
after_look (throw _) starts = after_starts starts

module _ (c : Backend) (uid key : String) where
  abbrev pub is_free : State (counted c) → Bool
  is_free w = is_absent (held (counted c) uid key w)

  pub record Run : Type 0 where
    pub world : State (counted c)
    pub phase : ℕ → Phase
    pub entries : ℕ

  abbrev pub Moves : (ℕ → Phase) → ℕ → Phase → (ℕ → Phase) → Type 0
  Moves old i p new = (new i ≡ p) × ((j : ℕ) → (j ≡ i → ⊥) → new j ≡ old j)

  -- One step of request `i`, or of the rest of the world.
  pub data Step (r : Run) : Run → Type 0 where
    -- The GET, and the code up to the next await or the handler.
    look :
        (i : ℕ) (method path : String) (found : Result (Option (IdempotencyRecord c.Body)))
        (w : State (counted c)) (new : ℕ → Phase)
        → r.phase i ≡ arrived
        → get (counted c) uid key r.world ≡ (found, w)
        → Moves r.phase i (after_look found (look_starts c uid key method path found w)) new
        → Step r (record {
          world = w;
          phase = new;
          entries = r.entries + look_starts c uid key method path found w;
        })
    -- The SET NX, and the code up to the handler.
    lock :
        (i : ℕ) (method path : String) (won : Result Bool) (w : State (counted c)) (new : ℕ → Phase)
        → r.phase i ≡ missed
        → set_pending (counted c) uid key method path r.world ≡ (won, w)
        → Moves r.phase i (after_starts (lock_starts c uid key method path r.world)) new
        → Step r (record {
          world = w;
          phase = new;
          entries = r.entries + lock_starts c uid key method path r.world;
        })
    -- The handler ends; it does not touch the key.
    work :
        (i : ℕ) (w : State (counted c)) (new : ℕ → Phase)
        → r.phase i ≡ running
        → held (counted c) uid key w ≡ held (counted c) uid key r.world
        → Moves r.phase i ran new
        → Step r (record { world = w; phase = new; entries = r.entries })
    -- The snapshot of a body or of a failure is stored.
    store :
        (i : ℕ) (method path : String) (status : ℕ) (body : Option c.Body) (new : ℕ → Phase)
        → r.phase i ≡ ran
        → Moves r.phase i answered new
        → Step r (record {
          world = (set_completed (counted c) uid key method path status body r.world).1;
          phase = new;
          entries = r.entries;
        })
    store_failure :
        (i : ℕ) (method path : String) (code : Option ErrorCode) (message : Option String)
        (new : ℕ → Phase)
        → r.phase i ≡ ran
        → Moves r.phase i answered new
        → Step r (record {
          world = (set_completed_failure (counted c) uid key method path code message r.world).1;
          phase = new;
          entries = r.entries;
        })
    -- Time passes and other keys change; the key has not expired.
    others :
        (w : State (counted c))
        → (is_free r.world ≡ false → is_free w ≡ false)
        → Step r (record { world = w; phase = r.phase; entries = r.entries })

  pub data Reach (r : Run) : Run → Type 0 where
    here : Reach r r
    next : {s t : Run} → Reach r s → Step s t → Reach r t

  -- No handler was started, or one was and the key is taken.
  abbrev pub AtMostOne : ℕ → State (counted c) → Type 0
  AtMostOne entries w = (entries ≡ 0) ⊎ ((entries ≡ 1) × (is_free w ≡ false))

  keep :
      (entries : ℕ) (v w : State (counted c))
      → AtMostOne entries v
      → (is_free v ≡ false → is_free w ≡ false)
      → AtMostOne entries w
  keep entries v w (inl e) f = inl e
  keep entries v w (inr (e, taken)) f = inr (e, f taken)

  won_free :
      (a : Answer Bool) (free : Bool)
      → settled a ≡ ok true
      → ((set : Bool) → a ≡ answer set → set ≡ free)
      → (a ≡ answer true) × (free ≡ true)
  won_free (answer true) free h f = (refl, sym (f true refl))
  won_free (answer false) free h f = cc
  won_free (reject _ _) free h f = cc

  module _ (given : BackendLaws c) where
    abbrev laws : BackendLaws (counted c)
    laws = record { codec = given.codec; redis = given.redis }

    get_keeps :
        (w : State (counted c))
        → held (counted c) uid key (get (counted c) uid key w).1 ≡ held (counted c) uid key w
    unfolding get
    get_keeps w =
        ap (held (counted c) uid key)
          (continue-lift (decoded (counted c)) _ (after_get (counted c) uid key w))
        ∙ held-after_get (counted c) laws uid key w uid key

    -- SET NX wins only an absent key, and takes it.
    pub set_pending_won :
        (method path : String) (w : State (counted c))
        → (set_pending (counted c) uid key method path w).0 ≡ ok true
        → (is_free w ≡ true) × (is_free (set_pending (counted c) uid key method path w).1 ≡ false)
    unfolding set_pending
    set_pending_won method path w h =
        let (won, free) = won_free _ _ h (λ set e. laws.redis.set_nx_ex_answer _ _ _ _ set e) in
        (
          free,
          rw
              (
                laws.redis.entry-set_nx_ex _ _ _ _ true (build_key uid key) won,
                eq_refl (build_key uid key),
              )
              refl,
        )

    set_pending_keeps :
        (method path : String) (w : State (counted c))
        → is_free w ≡ false
        → is_free (set_pending (counted c) uid key method path w).1 ≡ false
    unfolding set_pending
    set_pending_keeps method path w h = laws.redis.set_nx_ex_keeps _ _ _ _ _ h

    set_completed_keeps :
        (method path : String) (status : ℕ) (body : Option c.Body) (w : State (counted c))
        → is_free w ≡ false
        → is_free (set_completed (counted c) uid key method path status body w).1 ≡ false
    unfolding set_completed
    set_completed_keeps method path status body w h = laws.redis.set_ex_keeps _ _ _ _ _ h

    set_completed_failure_keeps :
        (method path : String) (code : Option ErrorCode) (message : Option String)
        (w : State (counted c))
        → is_free w ≡ false
        → is_free (set_completed_failure (counted c) uid key method path code message w).1 ≡ false
    unfolding set_completed_failure
    set_completed_failure_keeps method path code message w h = laws.redis.set_ex_keeps _ _ _ _ _ h

    lock_once :
        (entries : ℕ) (v : State (counted c)) (method path : String) (won : Result Bool)
        → AtMostOne entries v
        → (set_pending (counted c) uid key method path v).0 ≡ won
        → AtMostOne
            (entries + lock_starts c uid key method path v)
            (set_pending (counted c) uid key method path v).1
    lock_once entries v method path (ok true) inv h =
        let (free, taken) = set_pending_won method path v h in
        rw
          (
            lock_starts_of c uid key method path v (ok true) h,
            won_starts c uid key method path (set_pending (counted c) uid key method path v).1,
          )
          (inr (ground arith, taken))
    lock_once entries v method path (ok false) inv h =
        rw
          (
            lock_starts_of c uid key method path v (ok false) h,
            lost_starts c uid key method path (set_pending (counted c) uid key method path v).1,
            add-zero,
          )
          (keep entries v (set_pending (counted c) uid key method path v).1 inv
            (set_pending_keeps method path v))
    lock_once entries v method path (throw e) inv h =
        rw
          (
            lock_starts_of c uid key method path v (throw e) h,
            failed_starts c uid key method path e (set_pending (counted c) uid key method path v).1,
            add-zero,
          )
          (keep entries v (set_pending (counted c) uid key method path v).1 inv
            (set_pending_keeps method path v))

    Step-AtMostOne :
        {r t : Run} → Step r t → AtMostOne r.entries r.world → AtMostOne t.entries t.world
    Step-AtMostOne {r} (look i method path found w new p h m) inv =
        rw (look_starts-eq-zero c uid key method path found w, add-zero)
          (keep r.entries r.world w inv
            (λ taken. rw (← (ap (λ x. held (counted c) uid key x.1) h), get_keeps r.world) taken))
    Step-AtMostOne {r} (lock i method path won w new p h m) inv =
        subst (AtMostOne (r.entries + lock_starts c uid key method path r.world)) (ap (λ x. x.1) h)
          (lock_once r.entries r.world method path won inv (ap (λ x. x.0) h))
    Step-AtMostOne {r} (work i w new p h m) inv = keep r.entries r.world w inv (λ taken. rw h taken)
    Step-AtMostOne {r} (store i method path status body new p m) inv =
        keep r.entries r.world (set_completed (counted c) uid key method path status body r.world).1
          inv (set_completed_keeps method path status body r.world)
    Step-AtMostOne {r} (store_failure i method path code message new p m) inv =
        keep r.entries r.world
          (set_completed_failure (counted c) uid key method path code message r.world).1 inv
          (set_completed_failure_keeps method path code message r.world)
    Step-AtMostOne {r} (others w h) inv = keep r.entries r.world w inv h

    pub Reach-AtMostOne :
        {r t : Run} → AtMostOne r.entries r.world → Reach r t → AtMostOne t.entries t.world
    Reach-AtMostOne inv here = inv
    Reach-AtMostOne inv (next reach step) = Step-AtMostOne step (Reach-AtMostOne inv reach)

    -- However the requests under one key interleave, whatever Redis answers or rejects, their
    -- handlers are started at most once as long as the key does not expire.
    pub Reach-entries : {r t : Run} → r.entries ≡ 0 → Reach r t → t.entries ≤ 1
    Reach-entries h reach = let inv = Reach-AtMostOne (inl h) reach in ground (arith, inv)
