-- ===== src/Utils/CacheIds.antt =====
-- src/utils/cache-id.utils.ts: the ids under which query results are cached.
use personal_blog_service.Common.{ℕ, String, ◌⊕◌, decimal}

unfoldable pub get_post_entity_list_by_page_cache_id : ℕ → String
get_post_entity_list_by_page_cache_id page = "getPostEntityListByPage_" ⊕ decimal page

unfoldable pub get_post_entity_list_by_post_page_dto_cache_id : String → ℕ → String
get_post_entity_list_by_post_page_dto_cache_id post_uid page =
    "getPostEntityListByPostPageDto_" ⊕ post_uid ⊕ "_" ⊕ decimal page

unfoldable pub get_post_like_entity_list_cache_id : ℕ → String
get_post_like_entity_list_cache_id post_id = "PostLikeEntityList_" ⊕ decimal post_id

unfoldable pub get_user_info_entity_cache_id : String → String
get_user_info_entity_cache_id uid = "UserInfoEntity_" ⊕ uid

unfoldable pub get_user_auth_entity_cache_id : String → String
get_user_auth_entity_cache_id uid = "UserAuthEntity_" ⊕ uid

unfoldable pub get_user_session_entity_cache_id : String → String
get_user_session_entity_cache_id uid = "UserSessionEntity_" ⊕ uid
