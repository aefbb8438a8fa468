-- ===== src/Controllers/UserInfo.antt =====
-- src/user/controller/user-info.controller.ts.
use personal_blog_service.Common.{String, Option}
use personal_blog_service.Exec.{pure, lift, ◌>>=◌, ◌>>◌}
use personal_blog_service.Orm.{Table}
use personal_blog_service.UserInfo.Repository.{UserInfoEntity, Query}
use personal_blog_service.UserInfo.Service
use personal_blog_service.UserInfo.Service.{
  UserInfoDto, get_user_info_by_uid, delete_user_info_by_uid,
}
use personal_blog_service.Controllers.{SuccessResponse, success, authenticated_user_validation}

pub record UserInfoRequestDto : Type 0 where
  pub nickname : String
  pub introduce : String

-- The information of the caller.
abbrev pub to_user_info_dto : String → UserInfoRequestDto → UserInfoDto
to_user_info_dto uid d = record { uid = uid; nickname = d.nickname; introduce = d.introduce }

module _ (t : Table UserInfoEntity) where
  unfoldable pub create_user_info : Option String → UserInfoRequestDto → Query t SuccessResponse
  create_user_info caller d = do
    auth_uid ← lift (authenticated_user_validation caller)
    Service.create_user_info t (to_user_info_dto auth_uid d)
    pure success

  unfoldable pub get_user_info : Option String → Query t UserInfoDto
  get_user_info caller = do
    auth_uid ← lift (authenticated_user_validation caller)
    get_user_info_by_uid t auth_uid

  unfoldable pub update_user_info : Option String → UserInfoRequestDto → Query t SuccessResponse
  update_user_info caller d = do
    auth_uid ← lift (authenticated_user_validation caller)
    Service.update_user_info t (to_user_info_dto auth_uid d)
    pure success

  unfoldable pub delete_user_info : Option String → Query t SuccessResponse
  delete_user_info caller = do
    auth_uid ← lift (authenticated_user_validation caller)
    delete_user_info_by_uid t auth_uid
    pure success
