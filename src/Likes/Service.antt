-- ===== src/Likes/Service.antt =====
-- src/blog/service/post-like.service.ts: a post is liked once by a user, and the nicknames of those
-- who like the posts of a page are collected with one query for the likes.
use personal_blog_service.Common.{ℕ, ◌==◌, String, List, [], ◌∷◌, ◌++◌, if◌then◌else◌}
use personal_blog_service.Failure.Exceptions.{post_like_already_exists, post_like_not_found}
use personal_blog_service.Exec.{Exec, Result, pure, raise, ◌>>=◌}
use personal_blog_service.Orm.{Table}
use personal_blog_service.UserInfo.Repository.{UserInfoEntity}
use personal_blog_service.UserInfo.Service.{get_user_info_by_uid}
use personal_blog_service.Likes.Repository.{
  PostLikeEntity, LikeTable, Query, is_exist, save_post_like_entity, remove_post_like_entity,
  find_post_like_entities_by_post_ids,
}

pub record PostLikeDto : Type 0 where
  pub post_id : ℕ
  pub uid : String

-- PostLikeDao.from(…).toPostLikeEntity()
abbrev pub to_post_like_entity : PostLikeDto → PostLikeEntity
to_post_like_entity d = record { post_id = d.post_id; uid = d.uid }

module _ (t : LikeTable) where
  unfoldable pub add_post_like_user : PostLikeDto → Query t (Unit {0})
  add_post_like_user d = do
    exists ← is_exist t (to_post_like_entity d)
    (if exists
        then raise post_like_already_exists
        else save_post_like_entity t (to_post_like_entity d))

  unfoldable pub remove_post_like_user : PostLikeDto → Query t (Unit {0})
  remove_post_like_user d = do
    exists ← is_exist t (to_post_like_entity d)
    (if exists
        then remove_post_like_entity t (to_post_like_entity d)
        else raise post_like_not_found)

-- A Map from post ids, in the order in which the keys came in.
abbrev pub PostMap : Type 0 → Type 0
PostMap A = List (ℕ × A)

-- map.set(key, value)
unfoldable pub set_at : {A : Type 0} → ℕ → A → PostMap A → PostMap A
set_at k a [] = (k, a) ∷ []
set_at k a ((j, b) ∷ m) = if j == k then (j, a) ∷ m else (j, b) ∷ set_at k a m

-- postLikeMap.get(key) || [], as PostService reads the map.
abbrev pub get_or_empty : ℕ → PostMap (List String) → List String
get_or_empty k [] = []
get_or_empty k ((j, a) ∷ m) = if j == k then a else get_or_empty k m

-- The entity joins the group of its post, which is made if it is missing.
unfoldable pub push_to_group :
    PostLikeEntity → PostMap (List PostLikeEntity) → PostMap (List PostLikeEntity)
push_to_group e [] = (e.post_id, e ∷ []) ∷ []
push_to_group e ((j, es) ∷ m) =
    if j == e.post_id then (j, es ++ (e ∷ [])) ∷ m else (j, es) ∷ push_to_group e m

unfoldable pub grouped_by_post_id :
    List PostLikeEntity → PostMap (List PostLikeEntity) → PostMap (List PostLikeEntity)
unfolding push_to_group
grouped_by_post_id [] m = m
grouped_by_post_id (e ∷ es) m = grouped_by_post_id es (push_to_group e m)

-- Every post starts with no nicknames.
unfoldable pub without_likes : List ℕ → PostMap (List String) → PostMap (List String)
unfolding set_at
without_likes [] m = m
without_likes (k ∷ ks) m = without_likes ks (set_at k [] m)

-- The states of the two tables.
pub record Blog (L U : Type 0) : Type 0 where
  pub likes : L
  pub infos : U

module _ (t : LikeTable) (users : Table UserInfoEntity) where
  abbrev pub Action : Type 0 → Type 0
  Action = Exec (Blog t.State users.State)

  abbrev pub on_likes : {A : Type 0} → Query t A → Action A
  on_likes q s = let (r, l) = q s.likes in (r, record s { likes = l })

  abbrev pub on_infos : {A : Type 0} → (users.State → Result A × users.State) → Action A
  on_infos q s = let (r, u) = q s.infos in (r, record s { infos = u })

  unfoldable pub get_nickname_list : List PostLikeEntity → Action (List String)
  get_nickname_list [] = pure []
  get_nickname_list (e ∷ es) = do
    info ← on_infos (get_user_info_by_uid users e.uid)
    nicknames ← get_nickname_list es
    pure (info.nickname ∷ nicknames)

  -- The loop over the groups.
  unfoldable pub set_nicknames :
      PostMap (List PostLikeEntity) → PostMap (List String) → Action (PostMap (List String))
  unfolding get_nickname_list set_at
  set_nicknames [] m = pure m
  set_nicknames ((post_id, entities) ∷ groups) m = do
    nicknames ← get_nickname_list entities
    set_nicknames groups (set_at post_id nicknames m)

  unfoldable pub get_post_like_map_by_post_ids : List ℕ → Action (PostMap (List String))
  unfolding grouped_by_post_id without_likes set_nicknames
  get_post_like_map_by_post_ids post_ids = do
    entities ← on_likes (find_post_like_entities_by_post_ids t post_ids)
    set_nicknames (grouped_by_post_id entities []) (without_likes post_ids [])
