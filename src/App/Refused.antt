-- ===== src/App/Refused.antt =====
-- A request that the guard does not let in.
use personal_blog_service.Common.{◌≡◌, refl, ◌⊎◌, inl, inr, Bool, true, false, Option, some, arith}
use personal_blog_service.Failure.Exceptions.{Thrown, HttpBody, http}
use personal_blog_service.Failure.Codes.{number_of}
use personal_blog_service.Failure.Codes
use personal_blog_service.Failure.Filters.{
  respond, Reply, registered, catches, catch, send_failure_response, map_to_error_code,
  http_status_to_error_code, extract_http_exception_message,
}
use personal_blog_service.Exec.{Result, ok, throw}
use personal_blog_service.Auth.Platform.{Platform}
use personal_blog_service.Auth.Guard.{can_activate}
use personal_blog_service.App.{Framework, Incoming, Method, State, Action, proceed, handle}

-- A role that is not allowed is answered with the exception of the framework for it, 403, which has
-- no error code of its own.
abbrev pub internal_error : HttpBody → Reply
internal_error response = record {
  status = 200;
  body = record {
    code = some (number_of Codes.common_internal_error);
    message = some (extract_http_exception_message response);
  };
}

module _ (f : Framework) (p : Platform) (Tables : Type 0) where
  -- What the guard answers without letting the request in.
  abbrev pub is_refused : Result Bool → Bool
  is_refused (ok true) = false
  is_refused (ok false) = true
  is_refused (throw _) = true

  forbidden :
      (response : HttpBody)
      → f.forbidden ≡ http 403 response
      → respond f.forbidden ≡ some (internal_error response)
  unfolding respond registered catches catch send_failure_response map_to_error_code
      http_status_to_error_code
  forbidden response h = rw h refl

  module _ (response : HttpBody) (known : f.forbidden ≡ http 403 response) where
    -- Why `e` is thrown when the guard has answered `r`.
    abbrev pub IsReason : Result Bool → Thrown → Type 0
    IsReason r e =
        ((r ≡ ok false) × (e ≡ f.forbidden) × (respond e ≡ some (internal_error response)))
        ⊎ (r ≡ throw e)

    stopped :
        (r : Result Bool) (next : Action f p Tables (Option f.Body)) (s : State f p Tables)
        → is_refused r ≡ true
        → (e : Thrown) × IsReason r e × (proceed f p Tables next r s ≡ (throw e, s))
    stopped (ok true) next s h = absurd (ground arith)
    stopped (ok false) next s h = (f.forbidden, inl (refl, refl, forbidden response known), refl)
    stopped (throw e) next s h = (e, inr refl, refl)

    -- A request that the guard refuses reaches neither the throttler nor Redis nor the tables: it throws
    -- what the guard throws, or else, for a role that is not allowed, the 403 of the framework, which
    -- the client reads as COMMON_INTERNAL_ERROR.
    pub handle-refused :
        (i : Incoming) (serve : Method Tables) (s : State f p Tables)
        → let guarded =
            can_activate p i.route (record { request = i.credentials; store = s.store }) in
          is_refused guarded.0 ≡ true
          → (e : Thrown) × IsReason guarded.0 e
            × (handle f p Tables i serve s ≡ (throw e, record s { store = guarded.1.store }))
    unfolding handle
    handle-refused i serve s h = stopped _ _ _ h
