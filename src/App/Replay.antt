-- ===== src/App/Replay.antt =====
-- A repeated write request, from its headers to its answer.
use personal_blog_service.Common.{
  String, ◌≡◌, ◌⊎◌, refl, ap, ◌∙◌, Bool, true, false, Option, none, some,
}
use personal_blog_service.Exec.{Exec, Result, ok, throw}
use personal_blog_service.Web.{World, Request}
use personal_blog_service.Idempotency.{
  set_pending, set_completed, set_completed_failure, Backend, State as Stored, BackendLaws,
}
use personal_blog_service.Idempotency.Laws.{held, after_get}
use personal_blog_service.Idempotency.Up.{IsUp}
use personal_blog_service.Interceptor.{
  is_uuid_v4, is_safe_method, extract_key, extract_auth_user_id, for_key, for_user, intercept,
}
use personal_blog_service.Interceptor as Keyed
use personal_blog_service.Redis.{value_of}
use personal_blog_service.Interceptor.Kept.{
  locked, first_success, first_failure, kept_success, kept_failure,
}
use personal_blog_service.Interceptor.Outcome.{IsOther, replayed, respond-replayed_or}
use personal_blog_service.Failure.Exceptions.{Thrown}
use personal_blog_service.Failure.Filters.{respond}
use personal_blog_service.Throttler.{get_tracker}
use personal_blog_service.Auth.Platform as Auth
use personal_blog_service.Auth.Platform.{Platform}
use personal_blog_service.Auth.Guard.{Call, can_activate}
use personal_blog_service.Controllers.{SuccessResponse}
use personal_blog_service.App.{
  Framework, Incoming, Method, State, header_of, backend, controller, sent, intercepted, handle,
}

module _ (f : Framework) (p : Platform) (Tables : Type 0) where
  abbrev stored : Backend
  stored = backend f p Tables

  -- What the guard makes of the request.
  abbrev guarded : Incoming → State f p Tables → Result Bool × Call (Auth.State p)
  guarded i s = can_activate p i.route (record { request = i.credentials; store = s.store })

  abbrev counted : Incoming → String → State f p Tables → Result (Unit {0}) × f.Limits
  counted i uid s = f.throttle (get_tracker (header_of (some uid)) i.ip) s.limits

  -- The guard lets the request in as `uid`, and the throttler admits it.
  pub record IsAdmitted (i : Incoming) (uid : String) (s : State f p Tables) : Type 0 where
    pub entered : (guarded i s).0 ≡ ok true
    pub named : (guarded i s).1.request.authenticated_user ≡ some uid
    pub within : (counted i uid s).0 ≡ ok tt

  -- The route takes part in the idempotency, and the request has a key for a write.
  pub record IsKeyed (i : Incoming) (key : String) : Type 0 where
    pub covered : i.skip_idempotency ≡ false
    pub writes : is_safe_method i.request.method ≡ false
    pub brings : extract_key i.request ≡ some key
    pub accepted : is_uuid_v4 key ≡ true

  -- The request as the interceptor reads it.
  abbrev pub headed : Incoming → String → Request
  headed i uid = record i.request { authenticated_user = header_of (some uid) }

  keyed :
      (i : Incoming) (key uid : String) (serve : Method Tables) (s : State f p Tables)
      → IsKeyed i key
      → intercepted f p Tables i serve (some uid) s ≡ (
          let (r, v) =
            Keyed.handle
              (backend f p Tables)
              uid
              key
              (headed i uid)
              (controller f p Tables serve (some uid))
              s.world in
          (r, record s { world = v }))
  unfolding intercept extract_key extract_auth_user_id
  keyed i key uid serve s k = rw (k.covered, k.writes, k.brings, k.accepted) refl

  served :
      (i : Incoming) (uid : String) (serve : Method Tables) (s : State f p Tables)
      → IsAdmitted i uid s
      → handle f p Tables i serve s
        ≡ intercepted f p Tables i serve
            (some uid)
            (record s { store = (guarded i s).1.store; limits = (counted i uid s).1 })
  unfolding handle
  served i uid serve s a = rw (a.entered, a.named, a.within) refl

  -- The handler of the first request starts on the tables of the world before.
  ran :
      (uid key : String) (request : Request) (serve : Method Tables) (w : Stored stored)
      (r : Result SuccessResponse) (q : Tables)
      → serve (some uid) w.app ≡ (r, q)
      → let v = locked stored uid key request w in
        controller f p Tables serve (some uid) v ≡ (sent f p Tables r, record v { app = q })
  unfolding set_pending
  ran uid key request serve w r q h = rw h refl

  -- The key holds in `v` what it holds in `w`: the record has not expired or been changed.
  abbrev pub IsKept : String → String → Stored stored → Stored stored → Type 0
  IsKept uid key w v = value_of (held stored uid key v) ≡ value_of (held stored uid key w)

  module _ (laws : BackendLaws stored) (up : IsUp stored) (i i' : Incoming) (uid key : String)
      (serve serve' : Method Tables) (s s' : State f p Tables) where
    abbrev next : Exec (World f.redis.State Tables) (Option f.Body)
    next = controller f p Tables serve (some uid)

    abbrev next' : Exec (World f.redis.State Tables) (Option f.Body)
    next' = controller f p Tables serve' (some uid)

    -- What the interceptor makes of the two requests.
    abbrev first : Result (Option f.Body) × Stored stored
    first = Keyed.handle stored uid key (headed i uid) next s.world

    abbrev again : Result (Option f.Body) × Stored stored
    again = Keyed.handle stored uid key (headed i' uid) next' s'.world

    module _ (k : IsKeyed i key) (a : IsAdmitted i uid s) where
      -- The first request through the guard and the throttler.
      whole : handle f p Tables i serve s ≡ (
        first.0,
        record s { store = (guarded i s).1.store; limits = (counted i uid s).1; world = first.1 },
      )
      whole = served i uid serve s a ∙ keyed i key uid serve _ k

      -- What is kept of the first request is kept of its world.
      first-IsKept :
          IsKept uid key (handle f p Tables i serve s).1.world s'.world
          → IsKept uid key first.1 s'.world
      first-IsKept kept = kept ∙ ap (λ x. value_of (held stored uid key x.1.world)) whole

    -- A keyed write request that has been answered before is answered by one GET.
    twice :
        (r : Result (Option f.Body))
        → IsKeyed i' key
        → IsAdmitted i' uid s'
        → again ≡ (r, after_get stored uid key s'.world)
        → ((handle f p Tables i' serve' s').0 ≡ r)
          × ((handle f p Tables i' serve' s').1.world.app ≡ s'.world.app)
    twice r k' a' e =
        let whole' = served i' uid serve' s' a' ∙ keyed i' key uid serve' _ k' in
        (
          ap (λ x. x.0) whole' ∙ ap (λ x. x.0) e,
          ap (λ x. x.1.world.app) whole' ∙ ap (λ x. x.1.app) e,
        )

    -- With Redis up and no record under the key, a keyed write request that is admitted and whose
    -- method succeeds is answered with its response, and leaves the tables as one run of the method
    -- does. As long as its record is kept, whatever else has happened in between, an admitted request
    -- of the same user with the same key, method and path is answered with the same response and
    -- leaves the tables as they are.
    pub handle-replayed :
        (response : SuccessResponse) (q : Tables)
        → IsKeyed i key
        → IsKeyed i' key
        → i.request.method ≡ i'.request.method
        → i.request.path ≡ i'.request.path
        → IsAdmitted i uid s
        → IsAdmitted i' uid s'
        → held stored uid key s.world ≡ none
        → serve (some uid) s.world.app ≡ (ok response, q)
        → IsKept uid key (handle f p Tables i serve s).1.world s'.world
        → (((handle f p Tables i serve s).0 ≡ ok (f.body_of response))
            × ((handle f p Tables i serve s).1.world.app ≡ q))
          × ((handle f p Tables i' serve' s').0 ≡ ok (f.body_of response))
          × ((handle f p Tables i' serve' s').1.world.app ≡ s'.world.app)
    unfolding set_completed
    handle-replayed response q k k' m path a a' absent done kept =
        let body = f.body_of response in
        let v = record (locked stored uid key (headed i uid) s.world) { app = q } in
        let run = ran uid key (headed i uid) serve s.world (ok response) q done in
        let e =
          first_success stored laws up uid key (headed i uid) next s.world body v absent run in
        let e' =
          kept_success stored laws up uid key (headed i uid) next s.world (headed i' uid) next' body
            v s'.world absent run m path (first-IsKept k a kept) in
        let (answer, tables) = twice (ok body) k' a' e' in
        (
          (
            ap (λ x. x.0) (whole k a) ∙ ap (λ x. x.0) e,
            ap (λ x. x.1.world.app) (whole k a) ∙ ap (λ x. x.1.app) e,
          ),
          answer,
          tables,
        )

    -- With Redis up and no record under the key, when the method of an admitted keyed write request
    -- throws, the request throws this too and leaves the tables as one run of the method does. As long
    -- as its record is kept, an admitted request of the same user with the same key, method and path
    -- throws the snapshot of it and leaves the tables as they are. Both are one response to the client,
    -- or the error is neither an exception of the application nor one of the framework.
    pub handle-replayed_failure :
        (err : Thrown) (q : Tables)
        → IsKeyed i key
        → IsKeyed i' key
        → i.request.method ≡ i'.request.method
        → i.request.path ≡ i'.request.path
        → IsAdmitted i uid s
        → IsAdmitted i' uid s'
        → held stored uid key s.world ≡ none
        → serve (some uid) s.world.app ≡ (throw err, q)
        → IsKept uid key (handle f p Tables i serve s).1.world s'.world
        → (((handle f p Tables i serve s).0 ≡ throw err)
            × ((handle f p Tables i serve s).1.world.app ≡ q))
          × (((handle f p Tables i' serve' s').0 ≡ throw (replayed err))
              × ((handle f p Tables i' serve' s').1.world.app ≡ s'.world.app))
          × ((respond (replayed err) ≡ respond err) ⊎ IsOther err)
    unfolding set_completed_failure
    handle-replayed_failure err q k k' m path a a' absent done kept =
        let v = record (locked stored uid key (headed i uid) s.world) { app = q } in
        let run = ran uid key (headed i uid) serve s.world (throw err) q done in
        let e = first_failure stored laws up uid key (headed i uid) next s.world err v absent run in
        let e' =
          kept_failure stored laws up uid key (headed i uid) next s.world (headed i' uid) next' err
            v s'.world absent run m path (first-IsKept k a kept) in
        (
          (
            ap (λ x. x.0) (whole k a) ∙ ap (λ x. x.0) e,
            ap (λ x. x.1.world.app) (whole k a) ∙ ap (λ x. x.1.app) e,
          ),
          twice (throw (replayed err)) k' a' e',
          respond-replayed_or err,
        )
