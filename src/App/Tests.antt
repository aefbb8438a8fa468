-- ===== src/App/Tests.antt =====
-- A request from its headers to the table, in memory.
mod Repeated
use personal_blog_service.Common.{
  String, ◌≡◌, refl, true, false, ◌⊎◌, none, Option, some, List, [], ◌∷◌, select,
}
use personal_blog_service.Failure.Exceptions.{http, text}
use personal_blog_service.Exec.{ok, throw}
use personal_blog_service.Auth.Platform.{admin, user}
use personal_blog_service.Auth.Memory.{platform, one}
use personal_blog_service.Auth.Repository.{get_user_session_entity_by_uid}
use personal_blog_service.Auth.Jwt.{verify_access_token, verify_refresh_token}
use personal_blog_service.Auth.Guard.{
  GuardRequest, Route, bearer_token, can_activate, authenticate, admit,
}
use personal_blog_service.Likes.Memory.{likes, likes_laws, users, ann_1}
use personal_blog_service.Posts.Memory.{table, table_laws}
use personal_blog_service.Posts.Service
use personal_blog_service.Posts.Repository
use personal_blog_service.Posts.Writes.{is_not_by}
use personal_blog_service.Pipe.{transform}
use personal_blog_service.Throttler.{get_tracker}
use personal_blog_service.Utils.CacheIds.{get_user_session_entity_cache_id}
use personal_blog_service.Controllers.{post_id_of, authenticated_user_validation}
use personal_blog_service.Controllers.Posts.{delete_post}
use personal_blog_service.Controllers.Callers.{deletes, serve}
use personal_blog_service.Controllers.Memory.{pipes, site}
use personal_blog_service.Web.{single}
use personal_blog_service.Redis.Memory
use personal_blog_service.Orm.{Table}
use personal_blog_service.Orm.Memory as Rows
use personal_blog_service.UserInfo.Repository as UserInfo
use personal_blog_service.UserInfo.Repository.{
  UserInfoEntity, info_key, delete_user_info_entity_by_uid, remove_user_info_cache,
}
use personal_blog_service.UserInfo.Service.{delete_user_info_by_uid}
use personal_blog_service.Likes.Repository.{
  is_exist, remove_post_like_entity, remove_post_like_entity_list_cache,
}
use personal_blog_service.Likes.Service.{remove_post_like_user}
use personal_blog_service.Controllers.Likes.{delete_like}
use personal_blog_service.Controllers.UserInfo.{delete_user_info}
use personal_blog_service.Controllers.{SuccessResponse}
use personal_blog_service.Controllers.OwnLikes.{removes, serve_like}
use personal_blog_service.Controllers.OwnInfo.{InfoRequest, serve_info}
use personal_blog_service.Idempotency
use personal_blog_service.Idempotency.{IdempotencyRecord}
use personal_blog_service.Interceptor
use personal_blog_service.Interceptor.{intercept}
use personal_blog_service.App.{Framework, Incoming, State, handle}
use personal_blog_service.App.Refused.{IsReason, handle-refused}
use personal_blog_service.Failure.Exceptions.{Thrown}
use personal_blog_service.App.Owners.{IsFor, handle-Entered, handle-likes, handle-infos}

abbrev pub framework : Framework
framework = record {
  forbidden = http 403 (text "Forbidden resource");
  Limits = List String;
  throttle = λ tracker trackers. (ok tt, tracker ∷ trackers);
  Body = String;
  Text = IdempotencyRecord String;
  codec = record { stringify = λ r. r; parse = some };
  redis = Memory.client (IdempotencyRecord String);
  body_of = λ response. some response.message;
}

abbrev pub server : {Tables : Type 0} → Tables → State framework platform Tables
server tables = record {
  store = one;
  limits = [];
  world = record {
    redis = Memory.empty;
    date = "2026-06-04T00:00:00.000Z";
    headers = [];
    status_code = 200;
    app = tables;
  };
}

abbrev request : GuardRequest
request = record {
  authenticated_user = some "bob";
  authorization = some "Bearer ann";
  refresh_token = some "ann";
}

abbrev writers : Route
writers = record { is_public = false; roles = some (user ∷ []) }

-- Ann names bob in the trusted header, and deletes her own post all the same.
abbrev pub deletion : Incoming
deletion = record {
  route = writers;
  skip_idempotency = false;
  ip = "::1";
  credentials = request;
  request = record {
    method = "DELETE";
    path = "/posts/1";
    idempotency_key = some (single "0b1c7d1e-5f4a-4c3b-9d2e-1a2b3c4d5e6f");
    authenticated_user = some (single "bob");
  };
}

abbrev infos : Table UserInfoEntity
infos = Rows.table info_key

-- Ann and bob are there.
abbrev known : infos.State
known = record {
  rows = λ uid. some (record { uid = uid; nickname = uid; introduce = "" });
  results = λ id. none;
}

abbrev deletes_1 : Option String → Service.Action table likes users SuccessResponse
deletes_1 caller = serve pipes table likes users caller (deletes "1")

handle-Entered_example :
    let s' =
      (handle framework platform
        (Service.State table likes users)
        deletion
        deletes_1
        (server site)).1 in
    (table.posts s'.world.app.posts ≡ table.posts site.posts)
    ⊎ (uid : String) × IsFor framework platform deletion (server site) uid
      × (select (is_not_by uid) (table.posts s'.world.app.posts)
          ≡ select (is_not_by uid) (table.posts site.posts))
unfolding handle delete_post authenticated_user_validation post_id_of transform Service.delete_post
    Repository.delete_post can_activate authenticate admit verify_access_token verify_refresh_token
    bearer_token get_user_session_entity_by_uid get_user_session_entity_cache_id get_tracker
    intercept Interceptor.handle Interceptor.is_safe_method Interceptor.extract_key
    Interceptor.is_uuid_v4 Interceptor.extract_auth_user_id Idempotency.get Interceptor.on_lookup
    Idempotency.set_pending Interceptor.on_acquired Interceptor.on_success Idempotency.set_completed
handle-Entered_example =
    handle-Entered framework platform pipes table likes users table_laws deletion (deletes "1")
      (server site) (some "Success!") refl

-- Everybody likes everything, and ann takes her like of the first post back.
abbrev pub all_liked : likes.State
all_liked = λ e. true

handle-likes_example :
    let s' =
      (handle framework platform likes.State deletion
        (serve_like pipes likes (removes "1"))
        (server all_liked)).1 in
    (s'.world.app ann_1 ≡ true) ⊎ IsFor framework platform deletion (server all_liked) "ann"
unfolding handle delete_like authenticated_user_validation post_id_of transform
    remove_post_like_user is_exist remove_post_like_entity remove_post_like_entity_list_cache
    can_activate authenticate admit verify_access_token verify_refresh_token bearer_token
    get_user_session_entity_by_uid get_user_session_entity_cache_id get_tracker intercept
    Interceptor.handle Interceptor.is_safe_method Interceptor.extract_key Interceptor.is_uuid_v4
    Interceptor.extract_auth_user_id Idempotency.get Interceptor.on_lookup Idempotency.set_pending
    Interceptor.on_acquired Interceptor.on_success Idempotency.set_completed
handle-likes_example =
    handle-likes framework platform pipes likes likes_laws deletion (removes "1") (server all_liked)
      (some "Success!") ann_1 refl

handle-infos_example :
    let s' =
      (handle framework platform infos.State deletion
        (serve_info infos InfoRequest.deletes)
        (server known)).1 in
    (infos.row s'.world.app "ann" ≡ infos.row known "ann")
    ⊎ IsFor framework platform deletion (server known) "ann"
unfolding handle delete_user_info authenticated_user_validation delete_user_info_by_uid
    UserInfo.is_exist delete_user_info_entity_by_uid remove_user_info_cache can_activate
    authenticate admit verify_access_token verify_refresh_token bearer_token
    get_user_session_entity_by_uid get_user_session_entity_cache_id get_tracker intercept
    Interceptor.handle Interceptor.is_safe_method Interceptor.extract_key Interceptor.is_uuid_v4
    Interceptor.extract_auth_user_id Idempotency.get Interceptor.on_lookup Idempotency.set_pending
    Interceptor.on_acquired Interceptor.on_success Idempotency.set_completed
handle-infos_example =
    handle-infos framework platform infos (Rows.table_laws info_key) deletion InfoRequest.deletes
      (server known) (some "Success!") "ann" refl

-- Ann is no admin.
abbrev for_admins : Incoming
for_admins = record deletion { route = record { is_public = false; roles = some (admin ∷ []) } }

handle-refused_example :
    let guarded =
      can_activate platform for_admins.route (record { request = request; store = one }) in
    (e : Thrown) × IsReason framework platform infos.State
      (text "Forbidden resource")
      refl
      guarded.0
      e
    × (handle framework platform infos.State for_admins
          (serve_info infos InfoRequest.deletes)
          (server known)
        ≡ (throw e, record (server known) { store = guarded.1.store }))
unfolding can_activate authenticate admit verify_access_token verify_refresh_token bearer_token
    get_user_session_entity_by_uid get_user_session_entity_cache_id
handle-refused_example =
    handle-refused framework platform infos.State (text "Forbidden resource") refl for_admins
      (serve_info infos InfoRequest.deletes) (server known) refl
