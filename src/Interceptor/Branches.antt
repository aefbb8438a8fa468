-- ===== src/Interceptor/Branches.antt =====
-- The branches of `intercept` that do not run the handler under a lock: who is let through
-- untouched, who is refused, and what stays as it was.
use personal_blog_service.Common.{
  String, eq_iff, ◌≡◌, refl, ◌∙◌, ◌≢◌, ◌⊎◌, inl, inr, Bool, true, false, Option, none, some, ◌∷◌,
  arith, if_same,
}
use personal_blog_service.Failure.Exceptions.{bad_request, idempotency_in_progress}
use personal_blog_service.Exec.{throw}
use personal_blog_service.Web.{Request}
use personal_blog_service.Idempotency.{
  Backend, BackendLaws, State, Action, IdempotencyRecord, pending,
}
use personal_blog_service.Idempotency.Laws.{Holds, Reads, after_get, get_of_Holds}
use personal_blog_service.Interceptor.{
  is_uuid_v4, is_safe_method, extract_key, extract_auth_user_id, in_progress, on_record, on_lookup,
  handle, intercept,
}

module _ (b : Backend) (request : Request) (next : Action b (Option b.Body)) where
  -- A request that the interceptor leaves alone: the route is marked, the method is safe, there
  -- is no key, or the key is well formed and nobody is logged in.
  abbrev pub IsBypassed : Bool → Type 0
  IsBypassed skip =
      (skip ≡ true)
      ⊎ (is_safe_method request.method ≡ true)
      ⊎ (extract_key request ≡ none)
      ⊎ (key : String) × (extract_key request ≡ some key)
        × (is_uuid_v4 key ≡ true)
        × (extract_auth_user_id request ≡ none)

  -- A request that is left alone runs its handler and nothing else: no Redis command, no header.
  pub intercept_bypass : (skip : Bool) → IsBypassed skip → intercept b skip request next ≡ next
  unfolding intercept
  intercept_bypass skip (inl h) = rw h refl
  intercept_bypass true _ = refl
  intercept_bypass false (inr (inl h)) = rw h refl
  intercept_bypass false (inr (inr (inl h))) = rw h (if_same _ next)
  intercept_bypass false (inr (inr (inr (key, given, good, nobody)))) =
      rw (given, good, nobody) (if_same _ next)

  -- A key that is no UUID v4 is refused before anything is read or run.
  pub intercept_malformed :
      (key : String)
      → is_safe_method request.method ≡ false
      → extract_key request ≡ some key
      → is_uuid_v4 key ≡ false
      → (w : State b)
      → intercept b false request next w
        ≡ (throw (bad_request "Idempotency-Key must be a valid UUID v4."), w)
  unfolding intercept
  intercept_malformed key write given bad w = rw (write, given, bad) refl

  -- Every other request is handled under the key of its user.
  pub intercept_handled :
      (uid key : String)
      → is_safe_method request.method ≡ false
      → extract_key request ≡ some key
      → is_uuid_v4 key ≡ true
      → extract_auth_user_id request ≡ some uid
      → intercept b false request next ≡ handle b uid key request next
  unfolding intercept
  intercept_handled uid key write given good user = rw (write, given, good, user) refl

  module _ (laws : BackendLaws b) (uid key : String) (r : IdempotencyRecord b.Body)
      (w : State b) where
    pub handle_found :
        Holds b uid key r w
        → Reads b uid key w
        → handle b uid key request next w
          ≡ on_record b request.method request.path r (after_get b uid key w)
    unfolding handle on_lookup
    handle_found h reads = rw (get_of_Holds b laws uid key r w h reads) refl

    -- A key that was used for another method or path is refused, whatever its record says. The
    -- handler does not run.
    pub handle_conflict :
        Holds b uid key r w
        → Reads b uid key w
        → (r.method ≢ request.method) ⊎ (r.path ≢ request.path)
        → handle b uid key request next w ≡ (
          throw (bad_request "Idempotency-Key was already used for a different request."),
          after_get b uid key w,
        )
    unfolding on_record
    handle_conflict h reads other =
        handle_found h reads
        ∙ ground (arith, eq_iff r.method request.method, eq_iff r.path request.path)

    -- While the first request is in flight, a second one is told to come back after five seconds.
    -- The handler does not run.
    pub handle_pending :
        Holds b uid key r w
        → Reads b uid key w
        → r.method ≡ request.method
        → r.path ≡ request.path
        → r.state ≡ pending
        → handle b uid key request next w ≡ (
          throw idempotency_in_progress,
          record (after_get b uid key w) { headers = ("Retry-After", "5") ∷ w.headers },
        )
    unfolding on_record in_progress
    handle_pending h reads m p waiting =
        handle_found h reads ∙ rw ((eq_iff _ _).1 m, (eq_iff _ _).1 p, waiting) refl
