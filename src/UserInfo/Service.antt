-- ===== src/UserInfo/Service.antt =====
-- src/user/service/user-info.service.ts: user information is created once, read, changed, deleted.
use personal_blog_service.Common.{String, if◌then◌else◌}
use personal_blog_service.Failure.Exceptions.{user_info_already_exists, user_info_not_found}
use personal_blog_service.Exec.{pure, raise, ◌>>=◌}
use personal_blog_service.Orm.{Table}
use personal_blog_service.UserInfo.Repository.{
  UserInfoEntity, Query, is_exist, save_user_info_entity, find_user_info_entity,
  update_user_info_entity, delete_user_info_entity_by_uid,
}

pub record UserInfoDto : Type 0 where
  pub uid : String
  pub nickname : String
  pub introduce : String

-- UserInfoDao.from(…).toUserInfoEntity()
abbrev pub to_user_info_entity : UserInfoDto → UserInfoEntity
to_user_info_entity d = record { uid = d.uid; nickname = d.nickname; introduce = d.introduce }

-- UserInfoDao.from(…).toUserInfoDto()
abbrev pub to_user_info_dto : UserInfoEntity → UserInfoDto
to_user_info_dto e = record { uid = e.uid; nickname = e.nickname; introduce = e.introduce }

module _ (t : Table UserInfoEntity) where
  unfoldable pub create_user_info : UserInfoDto → Query t (Unit {0})
  create_user_info d = do
    exists ← is_exist t d.uid
    (if exists
        then raise (user_info_already_exists d.uid)
        else save_user_info_entity t (to_user_info_entity d))

  unfoldable pub get_user_info_by_uid : String → Query t UserInfoDto
  get_user_info_by_uid uid = do e ← find_user_info_entity t uid; pure (to_user_info_dto e)

  unfoldable pub update_user_info : UserInfoDto → Query t (Unit {0})
  update_user_info d = do
    exists ← is_exist t d.uid
    (if exists
        then update_user_info_entity t (to_user_info_entity d)
        else raise (user_info_not_found d.uid))

  unfoldable pub delete_user_info_by_uid : String → Query t (Unit {0})
  delete_user_info_by_uid uid = do
    exists ← is_exist t uid
    (if exists then delete_user_info_entity_by_uid t uid else raise (user_info_not_found uid))
