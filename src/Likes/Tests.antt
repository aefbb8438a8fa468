-- ===== src/Likes/Tests.antt =====
-- The likes on a table in memory, and their theorems at concrete inputs.
use personal_blog_service.Common.{
  List, String, str_eq, ◌≢◌, ◌≡◌, refl, none, some, true, false, [], ◌∷◌, if◌then◌else◌,
}
use personal_blog_service.Failure.Exceptions.{post_like_already_exists}
use personal_blog_service.Exec.{ok, throw}
use personal_blog_service.UserInfo.Repository.{info_key, find_user_info_entity}
use personal_blog_service.UserInfo.Service.{get_user_info_by_uid}
use personal_blog_service.Likes.Repository.{
  is_exist, save_post_like_entity, remove_post_like_entity, remove_post_like_entity_list_cache,
  find_post_like_entities_by_post_ids,
}
use personal_blog_service.Likes.Service.{
  PostMap, get_or_empty, PostLikeDto, add_post_like_user, remove_post_like_user, grouped_by_post_id,
  push_to_group, get_post_like_map_by_post_ids, set_at, without_likes, get_nickname_list,
  set_nicknames,
}
use personal_blog_service.Likes.Memory.{
  ann_1, bob_2, bob_1, likes, likes_laws, users, ann_and_bob, reads,
}
use personal_blog_service.Likes.Nicknames.{get_post_like_map_lem}
use personal_blog_service.Likes.Missing.{get_post_like_map-IsMissing}
use personal_blog_service.Orm.Memory.{table_laws}
use personal_blog_service.Likes.Once.{remove-add_post_like_user}
use personal_blog_service.Utils.CacheIds.{get_user_info_entity_cache_id}

abbrev nobody : likes.State
nobody e = false

abbrev ann_likes_1 : PostLikeDto
ann_likes_1 = record { post_id = 1; uid = "ann" }

remove-add_post_like_user_example :
    likes.liked
      (remove_post_like_user likes ann_likes_1 (add_post_like_user likes ann_likes_1 nobody).1).1
      bob_1
    ≡ likes.liked nobody bob_1
unfolding add_post_like_user remove_post_like_user is_exist save_post_like_entity
    remove_post_like_entity remove_post_like_entity_list_cache
remove-add_post_like_user_example =
    remove-add_post_like_user likes likes_laws ann_likes_1 nobody bob_1 refl refl

abbrev everybody : likes.State
everybody e = true

twice : (add_post_like_user likes ann_likes_1 everybody).0 ≡ throw post_like_already_exists
unfolding add_post_like_user is_exist
twice = refl

-- The map for a page with three posts, the last of which nobody likes.
map_of_page :
    (get_post_like_map_by_post_ids likes users
      (2 ∷ 1 ∷ 3 ∷ [])
      (record { likes = everybody; infos = ann_and_bob })).0
    ≡ ok ((2, "Bob" ∷ []) ∷ (1, "Ann" ∷ "Bob" ∷ []) ∷ (3, []) ∷ [])
unfolding get_post_like_map_by_post_ids find_post_like_entities_by_post_ids grouped_by_post_id
    push_to_group without_likes set_at set_nicknames get_nickname_list get_user_info_by_uid
    find_user_info_entity get_user_info_entity_cache_id
map_of_page = refl

get_post_like_map_lem_example :
    (m : PostMap (List String)) × ((get_post_like_map_by_post_ids likes users
        (2 ∷ 1 ∷ 3 ∷ [])
        (record { likes = everybody; infos = ann_and_bob })).0
      ≡ ok m)
    × (get_or_empty 1 m ≡ "Ann" ∷ "Bob" ∷ [])
unfolding find_post_like_entities_by_post_ids
get_post_like_map_lem_example =
    get_post_like_map_lem likes users (table_laws info_key) reads 1 (2 ∷ 1 ∷ 3 ∷ [])
      (record { likes = everybody; infos = ann_and_bob }) (ann_1 ∷ bob_2 ∷ bob_1 ∷ []) refl
      ((_, refl), ((_, refl), ((_, refl), tt)))

-- Bob has no information.
abbrev only_ann : users.State
only_ann = record {
  rows = λ uid.
      if str_eq uid "ann"
      then some (record { uid = "ann"; nickname = "Ann"; introduce = "" })
      else none;
  results = λ id. none;
}

get_post_like_map-IsMissing_example :
    (get_post_like_map_by_post_ids likes users
      (1 ∷ 2 ∷ [])
      (record { likes = everybody; infos = only_ann })).0
    ≢ ok []
unfolding find_post_like_entities_by_post_ids
get_post_like_map-IsMissing_example =
    get_post_like_map-IsMissing likes users (table_laws info_key) "bob" (1 ∷ 2 ∷ [])
      (ann_1 ∷ bob_2 ∷ bob_1 ∷ []) [] (record { likes = everybody; infos = only_ann }) (refl, refl)
      refl refl
