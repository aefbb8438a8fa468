-- ===== src/UserInfo/Repository.antt =====
-- src/user/repository/user-info.repository.ts: user information in the database and its cache.
use personal_blog_service.Common.{String, Bool, Option, none, some, if◌then◌else◌}
use personal_blog_service.Failure.Exceptions.{Thrown, error, user_info_not_found}
use personal_blog_service.Exec.{Exec, Result, ok, throw, raise, lift, catch_error, ◌>>=◌, ◌>>◌}
use personal_blog_service.Orm.{Table}
use personal_blog_service.Auth.Repository.{is_entity_not_found}
use personal_blog_service.Utils.CacheIds.{get_user_info_entity_cache_id}
use personal_blog_service.Utils.Time.{get_tic_time_hms}

-- USER_INFO, less the two timestamps that the database fills in.
pub record UserInfoEntity : Type 0 where
  pub uid : String
  pub nickname : String
  pub introduce : String

abbrev pub info_key : UserInfoEntity → String
info_key e = e.uid

-- The `OrFail` of the query.
abbrev pub info_or_fail : Option UserInfoEntity → Result UserInfoEntity
info_or_fail none =
    throw (error "EntityNotFoundError" "Could not find any entity of type UserInfoEntity")
info_or_fail (some e) = ok e

module _ (t : Table UserInfoEntity) where
  abbrev pub Query : Type 0 → Type 0
  Query = Exec t.State

  unfoldable pub is_exist : String → Query Bool
  is_exist uid = t.exist uid

  unfoldable pub save_user_info_entity : UserInfoEntity → Query (Unit {0})
  save_user_info_entity e = t.insert e

  unfoldable pub remove_user_info_cache : String → Query (Unit {0})
  remove_user_info_cache uid = t.remove_cached (get_user_info_entity_cache_id uid)

  -- The catch of `findUserInfoEntity`: the cache id is dropped first.
  abbrev pub info_not_found : String → Thrown → Query UserInfoEntity
  info_not_found uid err = do
    remove_user_info_cache uid
    raise (if is_entity_not_found err then user_info_not_found uid else err)

  unfoldable pub find_user_info_entity : String → Query UserInfoEntity
  find_user_info_entity uid = catch_error (info_not_found uid) (do
    found ← t.find_one_cached (get_user_info_entity_cache_id uid) (get_tic_time_hms 24 0 0) uid
    lift (info_or_fail found))

  unfoldable pub update_user_info_entity : UserInfoEntity → Query (Unit {0})
  update_user_info_entity e = do remove_user_info_cache e.uid; t.update e.uid (λ _. e)

  unfoldable pub delete_user_info_entity_by_uid : String → Query (Unit {0})
  delete_user_info_entity_by_uid uid = do remove_user_info_cache uid; t.delete uid
