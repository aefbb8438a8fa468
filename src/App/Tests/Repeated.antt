-- ===== src/App/Tests/Repeated.antt =====
-- Ann takes a like back, and her client repeats the request after five seconds; by then nobody likes
-- anything.
use personal_blog_service.Common.{String, false, ◌≡◌, ◌⊎◌, refl, some}
use personal_blog_service.Exec.{ok, throw}
use personal_blog_service.Failure.Exceptions.{post_like_already_exists}
use personal_blog_service.Failure.Filters.{respond}
use personal_blog_service.Interceptor.Outcome.{IsOther, replayed}
use personal_blog_service.Redis.Memory
use personal_blog_service.Idempotency
use personal_blog_service.Idempotency.{Backend, BackendLaws, IdempotencyRecord}
use personal_blog_service.Idempotency.Up.{IsUp, later}
use personal_blog_service.Interceptor
use personal_blog_service.Interceptor.{intercept}
use personal_blog_service.Auth.Memory.{platform}
use personal_blog_service.Auth.Repository.{get_user_session_entity_by_uid}
use personal_blog_service.Auth.Jwt.{verify_access_token, verify_refresh_token}
use personal_blog_service.Auth.Guard.{bearer_token, can_activate, authenticate, admit}
use personal_blog_service.Throttler.{get_tracker}
use personal_blog_service.Utils.CacheIds.{get_user_session_entity_cache_id}
use personal_blog_service.Pipe.{transform}
use personal_blog_service.Likes.Memory.{likes}
use personal_blog_service.Likes.Repository.{
  is_exist, remove_post_like_entity, remove_post_like_entity_list_cache,
}
use personal_blog_service.Likes.Service.{add_post_like_user, remove_post_like_user}
use personal_blog_service.Controllers.{success, post_id_of, authenticated_user_validation}
use personal_blog_service.Controllers.Memory.{pipes}
use personal_blog_service.Controllers.Likes.{add_like, delete_like}
use personal_blog_service.Controllers.OwnLikes.{adds, removes, serve_like}
use personal_blog_service.App.{Method, State, backend, handle}
use personal_blog_service.App.Replay.{
  IsKept, IsAdmitted, IsKeyed, handle-replayed, handle-replayed_failure,
}
use personal_blog_service.App.Tests.{framework, server, deletion, all_liked}

abbrev stored : Backend
stored = backend framework platform likes.State

stored_laws : BackendLaws stored
stored_laws = record {
  codec = record { parse-stringify = λ r. refl };
  redis = Memory.client_laws (IdempotencyRecord String);
}

stored_up : IsUp stored
stored_up = record {
  gets = λ k s. (_, refl);
  sets = λ k v seconds s. refl;
  sets_new = Memory.client_sets_new (IdempotencyRecord String);
}

abbrev takes_back : Method likes.State
takes_back = serve_like pipes likes (removes "1")

-- The server five seconds after the first request.
abbrev after : State framework platform likes.State
after =
    let s = (handle framework platform likes.State deletion takes_back (server all_liked)).1 in
    record s { world = record (later stored 5000 s.world) { app = λ e. false } }

keyed : IsKeyed framework platform likes.State deletion "0b1c7d1e-5f4a-4c3b-9d2e-1a2b3c4d5e6f"
unfolding Interceptor.is_safe_method Interceptor.extract_key Interceptor.is_uuid_v4
keyed = record { covered = refl; writes = refl; brings = refl; accepted = refl }

first-IsAdmitted : IsAdmitted framework platform likes.State deletion "ann" (server all_liked)
unfolding can_activate authenticate admit verify_access_token verify_refresh_token bearer_token
    get_user_session_entity_by_uid get_user_session_entity_cache_id
first-IsAdmitted = record { entered = refl; named = refl; within = refl }

again-IsAdmitted : IsAdmitted framework platform likes.State deletion "ann" after
unfolding handle can_activate authenticate admit verify_access_token verify_refresh_token
    bearer_token get_user_session_entity_by_uid get_user_session_entity_cache_id
again-IsAdmitted = record { entered = refl; named = refl; within = refl }

after-IsKept :
    IsKept framework platform likes.State "ann" "0b1c7d1e-5f4a-4c3b-9d2e-1a2b3c4d5e6f"
      (handle framework platform likes.State deletion takes_back (server all_liked)).1.world
      after.world
unfolding delete_like authenticated_user_validation post_id_of transform remove_post_like_user
    is_exist remove_post_like_entity remove_post_like_entity_list_cache handle can_activate
    authenticate admit verify_access_token verify_refresh_token bearer_token
    get_user_session_entity_by_uid get_user_session_entity_cache_id get_tracker intercept
    Interceptor.handle Interceptor.is_safe_method Interceptor.extract_key Interceptor.is_uuid_v4
    Interceptor.extract_auth_user_id Idempotency.get Interceptor.on_lookup Idempotency.set_pending
    Interceptor.on_acquired Interceptor.on_success Idempotency.set_completed Idempotency.build_key
after-IsKept = refl

handle-replayed_example :
    (((handle framework platform likes.State deletion takes_back (server all_liked)).0
        ≡ ok (some "Success!"))
      × ((handle framework platform likes.State deletion takes_back (server all_liked)).1.world.app
          ≡ (takes_back (some "ann") all_liked).1))
    × ((handle framework platform likes.State deletion takes_back after).0 ≡ ok (some "Success!"))
    × ((handle framework platform likes.State deletion takes_back after).1.world.app
        ≡ after.world.app)
unfolding delete_like authenticated_user_validation post_id_of transform remove_post_like_user
    is_exist remove_post_like_entity remove_post_like_entity_list_cache
handle-replayed_example =
    handle-replayed framework platform likes.State stored_laws stored_up deletion deletion "ann"
      "0b1c7d1e-5f4a-4c3b-9d2e-1a2b3c4d5e6f" takes_back takes_back (server all_liked) after success
      (takes_back (some "ann") all_liked).1 keyed keyed refl refl first-IsAdmitted again-IsAdmitted
      refl refl after-IsKept

-- Ann likes a post that she likes already.
abbrev likes_again : Method likes.State
likes_again = serve_like pipes likes (adds "1")

abbrev refused : State framework platform likes.State
refused =
    let s = (handle framework platform likes.State deletion likes_again (server all_liked)).1 in
    record s { world = later stored 5000 s.world }

refused-IsAdmitted : IsAdmitted framework platform likes.State deletion "ann" refused
unfolding handle can_activate authenticate admit verify_access_token verify_refresh_token
    bearer_token get_user_session_entity_by_uid get_user_session_entity_cache_id
refused-IsAdmitted = record { entered = refl; named = refl; within = refl }

refused-IsKept :
    IsKept framework platform likes.State "ann" "0b1c7d1e-5f4a-4c3b-9d2e-1a2b3c4d5e6f"
      (handle framework platform likes.State deletion likes_again (server all_liked)).1.world
      refused.world
unfolding add_like authenticated_user_validation post_id_of transform add_post_like_user is_exist
    handle can_activate authenticate admit verify_access_token verify_refresh_token bearer_token
    get_user_session_entity_by_uid get_user_session_entity_cache_id get_tracker intercept
    Interceptor.handle Interceptor.is_safe_method Interceptor.extract_key Interceptor.is_uuid_v4
    Interceptor.extract_auth_user_id Idempotency.get Interceptor.on_lookup Idempotency.set_pending
    Interceptor.on_acquired Interceptor.on_failure Idempotency.set_completed_failure
    Idempotency.build_key
refused-IsKept = refl

handle-replayed_failure_example :
    (((handle framework platform likes.State deletion likes_again (server all_liked)).0
        ≡ throw post_like_already_exists)
      × ((handle framework platform likes.State deletion likes_again (server all_liked)).1.world.app
          ≡ all_liked))
    × (((handle framework platform likes.State deletion likes_again refused).0
          ≡ throw (replayed post_like_already_exists))
        × ((handle framework platform likes.State deletion likes_again refused).1.world.app
            ≡ refused.world.app))
    × ((respond (replayed post_like_already_exists) ≡ respond post_like_already_exists)
        ⊎ IsOther post_like_already_exists)
unfolding add_like authenticated_user_validation post_id_of transform add_post_like_user is_exist
handle-replayed_failure_example =
    handle-replayed_failure framework platform likes.State stored_laws stored_up deletion deletion
      "ann" "0b1c7d1e-5f4a-4c3b-9d2e-1a2b3c4d5e6f" likes_again likes_again (server all_liked)
      refused post_like_already_exists all_liked keyed keyed refl refl first-IsAdmitted
      refused-IsAdmitted refl refl refused-IsKept
