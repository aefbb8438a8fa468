-- ===== src/UserInfo/Tests.antt =====
-- The user information on a table in memory, and its theorems at concrete inputs.
use personal_blog_service.Common.{str_eq, ◌≡◌, refl, none, some, if◌then◌else◌}
use personal_blog_service.Failure.Exceptions.{user_info_not_found}
use personal_blog_service.Exec.{throw}
use personal_blog_service.Orm.{Table}
use personal_blog_service.Orm.Memory.{table, table_laws}
use personal_blog_service.UserInfo.Repository.{
  UserInfoEntity, info_key, is_exist, remove_user_info_cache, find_user_info_entity,
  update_user_info_entity, delete_user_info_entity_by_uid,
}
use personal_blog_service.UserInfo.Service.{
  UserInfoDto, to_user_info_entity, get_user_info_by_uid, update_user_info, delete_user_info_by_uid,
}
use personal_blog_service.UserInfo.Coherence.{get-update_user_info}
use personal_blog_service.Utils.CacheIds.{get_user_info_entity_cache_id}

abbrev infos : Table UserInfoEntity
infos = table info_key

abbrev ann : UserInfoDto
ann = record { uid = "ann"; nickname = "Ann"; introduce = "Hi" }

abbrev renamed : UserInfoDto
renamed = record { uid = "ann"; nickname = "Anna"; introduce = "Hi" }

abbrev empty : infos.State
empty = record { rows = λ j. none; results = λ j. none }

-- Ann is there, and her information is cached.
abbrev one : infos.State
one = record {
  rows = λ j. if str_eq "ann" j then some (to_user_info_entity ann) else none;
  results =
      λ j. if str_eq "UserInfoEntity_ann" j then some (some (to_user_info_entity ann)) else none;
}

get-update_user_info_example : renamed ≡ renamed
unfolding update_user_info is_exist update_user_info_entity remove_user_info_cache
    get_user_info_by_uid find_user_info_entity get_user_info_entity_cache_id
get-update_user_info_example =
    get-update_user_info infos (table_laws info_key) renamed renamed one refl refl

-- What is read after the deletion.
gone :
    (get_user_info_by_uid infos "ann" (delete_user_info_by_uid infos "ann" one).1).0
    ≡ throw (user_info_not_found "ann")
unfolding delete_user_info_by_uid is_exist delete_user_info_entity_by_uid remove_user_info_cache
    get_user_info_by_uid find_user_info_entity get_user_info_entity_cache_id
gone = refl
