-- ===== src/App/Entry.antt =====
-- What a request does to the tables on its way from the headers to a controller, and for whom it
-- counts.
use personal_blog_service.Common.{
  String, ◌⊕◌, ◌≡◌, refl, ap, sym, ◌∙◌, ◌⊎◌, inl, inr, Bool, true, false, Option, none, some, arith,
}
use mathlib.Core.Path.{subst}
use personal_blog_service.Exec.{Result, ok, throw, bind-ok}
use personal_blog_service.Throttler.{get_tracker}
use personal_blog_service.Interceptor.Once.{skipped, ran_once, intercept-Ran}
use personal_blog_service.Auth.Platform as Auth
use personal_blog_service.Auth.Platform.{Platform}
use personal_blog_service.Auth.Guard.{Route, Call, can_activate}
use personal_blog_service.Auth.Guard.Entry.{Entered, can_activate-Entered}
use personal_blog_service.Controllers.{SuccessResponse}
use personal_blog_service.App.{
  Framework, Incoming, Method, State, Action, header_of, backend, proceed, throttled, sent,
  controller, intercepted, after_guard, handle,
}

module _ (p : Platform) (route : Route) (call : Call (Auth.State p)) where
  abbrev left : Option String
  left = (can_activate p route call).1.request.authenticated_user

  -- For whom a request counts, given the user that the guard has left.
  abbrev CountsFor : String → Option String → Type 0
  CountsFor ip user =
      (get_tracker (header_of user) ip ≡ "ip:" ⊕ ip)
      ⊎ (uid : String) × Entered p route call (can_activate p route call).0 (some uid)
        × (get_tracker (header_of user) ip ≡ "user:" ⊕ uid)

  counts :
      (ip : String) (user : Option String)
      → Entered p route call (can_activate p route call).0 user
      → CountsFor ip user
  unfolding get_tracker
  counts ip none h = inl refl
  counts ip (some uid) h = inr (uid, h, refl)

  -- Whatever the request brings, by the header that the guard leaves it counts for its address, or for
  -- a user whose session stores the verified refresh token that it came with, beside a verified access
  -- token, and whose role the route allows.
  pub get_tracker-Entered : (ip : String) → CountsFor ip left
  get_tracker-Entered ip = counts ip left (can_activate-Entered p route call)

module _ (f : Framework) (p : Platform) (Tables : Type 0) where
  abbrev Passed : {A : Type 0} → Action f p Tables A → Result Bool → State f p Tables → A → Type 0
  Passed next r s a =
      (r ≡ ok true) × ((next s).0 ≡ ok a) × ((proceed f p Tables next r s).1 ≡ (next s).1)

  passed :
      {A : Type 0} (next : Action f p Tables A) (r : Result Bool) (s : State f p Tables) (a : A)
      → (proceed f p Tables next r s).0 ≡ ok a
      → Passed next r s a
  passed next (ok true) s a h = (refl, h, refl)
  passed next (ok false) s a h = absurd (ground arith)
  passed next (throw _) s a h = absurd (ground arith)

  answered :
      (r : Result SuccessResponse) (body : Option f.Body)
      → sent f p Tables r ≡ ok body
      → (a : SuccessResponse) × (r ≡ ok a)
  answered (ok a) body h = (a, refl)
  answered (throw _) body h = absurd (ground arith)

  -- A method was run once on the tables `q`, answered with success and left `q'`.
  abbrev pub Served : Method Tables → Option String → Tables → Tables → Type 0
  Served serve caller q q' =
      (a : SuccessResponse) × ((serve caller q).0 ≡ ok a) × (q' ≡ (serve caller q).1)

  -- What a request that was answered with success has done to the tables: nothing, or its method
  -- was run once for the user whom the guard has named.
  abbrev pub Answered : Incoming → Method Tables → State f p Tables → State f p Tables → Type 0
  Answered i serve s s' =
      (s'.world.app ≡ s.world.app)
      ⊎ (caller : Option String) × Entered p i.route
          (record { request = i.credentials; store = s.store }) (ok true) caller
        × Served serve caller s.world.app s'.world.app

  Ran-Served :
      (i : Incoming) (serve : Method Tables) (caller : Option String) (s : State f p Tables)
      (body : Option f.Body)
      → (intercepted f p Tables i serve caller s).0 ≡ ok body
      → let s' = (intercepted f p Tables i serve caller s).1 in
        (s'.world.app ≡ s.world.app) ⊎ Served serve caller s.world.app s'.world.app
  Ran-Served i serve caller s body h =
      let next = controller f p Tables serve caller in
      let headed = record i.request { authenticated_user = header_of caller } in
      elim (intercept-Ran (backend f p Tables) next s.world i.skip_idempotency headed) [
        | skipped same ↦ inl same
        | ran_once v same returned after ↦
            let (a, served) = answered (serve caller v.app).0 body (sym returned ∙ h) in
            inr (
              a,
              ap (λ q. (serve caller q).0) (sym same) ∙ served,
              after ∙ ap (λ q. (serve caller q).1) same,
            )
      ]

  -- A request that is answered with success has left the tables as they were, or its method was run
  -- on them once, and for the user whose refresh token was verified, beside some access token, and
  -- whose role the route allows; on a public route perhaps for nobody. That is so whatever the request
  -- brought and whatever Redis and the throttler answered.
  pub handle-Answered :
      (i : Incoming) (serve : Method Tables) (s : State f p Tables) (body : Option f.Body)
      → (handle f p Tables i serve s).0 ≡ ok body
      → Answered i serve s (handle f p Tables i serve s).1
  unfolding handle
  handle-Answered i serve s body h =
      let call : Call (Auth.State p) = record { request = i.credentials; store = s.store } in
      let r = (can_activate p i.route call).0 in
      let c = (can_activate p i.route call).1 in
      let caller = c.request.authenticated_user in
      let s' : State f p Tables = record s { store = c.store } in
      let throttle = throttled f p Tables (get_tracker (header_of caller) i.ip) in
      let next = intercepted f p Tables i serve caller in
      let (e, ran, same) = passed (after_guard f p Tables i serve caller) r s' body h in
      let (_, _, served, after) = bind-ok (λ _. next) throttle s' body ran in
      let there = ap (λ u. u.world.app) (same ∙ after) in
      elim (Ran-Served i serve caller (throttle s').1 body served) [
        | inl kept ↦ inl (there ∙ kept)
        | inr (a, success, left_by) ↦ inr (
          caller,
          subst (λ q. Entered p i.route call q caller) e (can_activate-Entered p i.route call),
          (a, success, there ∙ left_by),
        )
      ]
