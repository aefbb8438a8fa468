-- ===== src/Auth/Repository.antt =====
-- src/user/repository/user-auth.repository.ts: accounts in the database, and the cached session.
pub mod Coherence
pub mod Stale
use personal_blog_service.Common.{
  String, ◌⊕◌, str_eq, Bool, false, Option, none, some, if◌then◌else◌,
}
use personal_blog_service.Failure.Exceptions.{Thrown, base, http, error, user_not_found}
use personal_blog_service.Exec.{Result, ok, throw, pure, raise, lift, catch_error, ◌>>=◌, ◌>>◌}
use personal_blog_service.Auth.Platform.{UserAuthEntity, UserSessionEntity, Platform, Action, query}
use personal_blog_service.Utils.CacheIds.{
  get_user_auth_entity_cache_id, get_user_session_entity_cache_id,
}
use personal_blog_service.Utils.Time.{get_tic_time_hms}

-- error instanceof EntityNotFoundError
abbrev pub is_entity_not_found : Thrown → Bool
is_entity_not_found (base _) = false
is_entity_not_found (http _ _) = false
is_entity_not_found (error name _) = str_eq name "EntityNotFoundError"

-- The `OrFail` of a query.
abbrev pub or_fail : {A : Type 0} → Option A → Result A
or_fail none =
    throw (error "EntityNotFoundError" "Could not find any entity of type UserAuthEntity")
or_fail (some a) = ok a

abbrev pub session_of : UserAuthEntity → UserSessionEntity
session_of e = record { uid = e.uid; refresh_token = e.refresh_token; user_role = e.user_role }

-- UPDATE with the fields of the session entity.
abbrev pub with_session : UserSessionEntity → UserAuthEntity → UserAuthEntity
with_session s e = record e {
  uid = s.uid;
  refresh_token = s.refresh_token;
  user_role = s.user_role;
}

module _ (p : Platform) where
  unfoldable pub save_user_auth_entity : UserAuthEntity → Action p (Unit {0})
  save_user_auth_entity e = query p (p.users.insert e)

  -- A missing row is USER_NOT_FOUND, any other error goes on.
  abbrev pub rethrown : {A : Type 0} → String → Thrown → Action p A
  rethrown uid err = raise (if is_entity_not_found err then user_not_found uid else err)

  -- The catch of `getUserAuthEntity`: the cache id is dropped first.
  abbrev pub auth_not_found : {A : Type 0} → String → Thrown → Action p A
  auth_not_found uid err = do
    query p (p.users.remove_cached (get_user_auth_entity_cache_id uid))
    rethrown uid err

  -- The catch of `getUserSessionEntityByUid` does not await the removal, so its failure is lost.
  abbrev pub session_not_found : {A : Type 0} → String → Thrown → Action p A
  session_not_found uid err = do
    catch_error (λ _. pure tt)
        (query p (p.users.remove_cached (get_user_session_entity_cache_id uid)))
    rethrown uid err

  unfoldable pub get_user_auth_entity : String → Action p UserAuthEntity
  get_user_auth_entity uid =
      catch_error (auth_not_found uid)
        (do found ← query p (p.users.find_one uid); lift (or_fail found))

  unfoldable pub is_exist : String → Action p Bool
  is_exist uid = query p (p.users.exist uid)

  unfoldable pub get_user_session_entity_by_uid : String → Action p UserSessionEntity
  get_user_session_entity_by_uid uid = catch_error (session_not_found uid) (do
    found ← query p (
        p.users.find_one_cached (get_user_session_entity_cache_id uid) (get_tic_time_hms 6 0 0) uid)
    e ← lift (or_fail found)
    pure (session_of e))

  unfoldable pub update_user_auth_by_user_session_entity : UserSessionEntity → Action p (Unit {0})
  update_user_auth_by_user_session_entity s = do
    query p (p.users.remove_cached (get_user_session_entity_cache_id s.uid))
    query p (p.users.update s.uid (with_session s))
