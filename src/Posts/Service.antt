-- ===== src/Posts/Service.antt =====
-- src/blog/service/post.service.ts: pages of posts with the nicknames of those who like them.
use personal_blog_service.Common.{ℕ, ltb, String, List, [], ◌∷◌, map, if◌then◌else◌}
use personal_blog_service.Exec.{Exec, pure, lift, ◌>>=◌}
use personal_blog_service.Orm.{Table}
use personal_blog_service.UserInfo.Repository.{UserInfoEntity}
use personal_blog_service.Likes.Repository.{LikeTable}
use personal_blog_service.Likes.Service.{Blog, PostMap, get_or_empty, get_post_like_map_by_post_ids}
use personal_blog_service.Likes.Service as Likes
use personal_blog_service.Utils.Pagination.{PaginationDto, get_last_page, to_pagination_dto}
use personal_blog_service.Posts.Table.{PostEntity, PostTable}
use personal_blog_service.Posts.Repository
use personal_blog_service.Posts.Repository.{
  CreatePostDto, PatchPostDto, PostPageDto, Query, find_post_entity_list_and_count_by_page,
  find_post_entity_list_and_count_by_post_page_dto, find_post_entity_by_post_id,
}

pub record PostDto : Type 0 where
  pub post_id : ℕ
  pub post_uid : String
  pub title : String
  pub write_datetime : String
  pub contents : String
  pub hits : ℕ
  pub post_like_nickname_list : List String

-- PostDao.from(entity), with its nicknames, .toPostDto()
abbrev pub to_post_dto : PostEntity → List String → PostDto
to_post_dto e nicknames = record {
  post_id = e.post_id;
  post_uid = e.post_uid;
  title = e.title;
  write_datetime = e.write_datetime;
  contents = e.contents;
  hits = e.hits;
  post_like_nickname_list = nicknames;
}

abbrev pub post_ids_of : List PostEntity → List ℕ
post_ids_of = map (λ e. e.post_id)

-- The states of the posts, and of the likes and the user information.
pub record Site (P B : Type 0) : Type 0 where
  pub posts : P
  pub blog : B

module _ (t : PostTable) (likes : LikeTable) (users : Table UserInfoEntity) where
  abbrev pub State : Type 0
  State = Site t.State (Blog likes.State users.State)

  abbrev pub Action : Type 0 → Type 0
  Action = Exec State

  abbrev pub on_posts : {A : Type 0} → Query t A → Action A
  on_posts q s = let (r, p) = q s.posts in (r, record s { posts = p })

  abbrev pub on_blog : {A : Type 0} → Likes.Action likes users A → Action A
  on_blog q s = let (r, b) = q s.blog in (r, record s { blog = b })

  unfoldable pub create_post : String → CreatePostDto → Action (Unit {0})
  create_post auth_uid d = on_posts (Repository.create_post t auth_uid d)

  -- `toPostDaoList`, and the `toPostDto` of each.
  unfoldable pub to_post_dto_list : List PostEntity → Action (List PostDto)
  to_post_dto_list es = do
    post_like_map ← on_blog (get_post_like_map_by_post_ids likes users (post_ids_of es))
    pure (map (λ e. to_post_dto e (get_or_empty e.post_id post_like_map)) es)

  -- Past the last page, the last one is read in its place.
  abbrev pub clamped :
      (ℕ → Query t (List PostEntity × ℕ)) → ℕ → ℕ → List PostEntity → Action (List PostEntity × ℕ)
  clamped find page last_page es =
      if ltb last_page page
      then (do (es', _) ← on_posts (find last_page); pure (es', last_page))
      else pure (es, page)

  -- Both listings, by the query for a page.
  abbrev pub get_post_page_list :
      (ℕ → Query t (List PostEntity × ℕ)) → ℕ → Action (PaginationDto PostDto)
  get_post_page_list find page = do
    (initial, total) ← on_posts (find page)
    (post_entity_list, current_page) ← clamped find page (get_last_page total) initial
    dtos ← to_post_dto_list post_entity_list
    lift (to_pagination_dto dtos total current_page)

  unfoldable pub get_post_page_list_by_page : ℕ → Action (PaginationDto PostDto)
  get_post_page_list_by_page = get_post_page_list (find_post_entity_list_and_count_by_page t)

  unfoldable pub get_post_page_list_by_post_uid : String → ℕ → Action (PaginationDto PostDto)
  get_post_page_list_by_post_uid post_uid = get_post_page_list (λ page.
      find_post_entity_list_and_count_by_post_page_dto t
        (record { post_uid = post_uid; page = page }))

  unfoldable pub get_post_by_post_id : ℕ → Action PostDto
  get_post_by_post_id post_id = do
    e ← on_posts (find_post_entity_by_post_id t post_id)
    post_like_map ← on_blog (get_post_like_map_by_post_ids likes users (e.post_id ∷ []))
    pure (to_post_dto e (get_or_empty e.post_id post_like_map))

  unfoldable pub update_post : String → ℕ → PatchPostDto → Action (Unit {0})
  update_post auth_uid post_id d = on_posts (Repository.update_post t auth_uid post_id d)

  unfoldable pub delete_post : String → ℕ → Action (Unit {0})
  delete_post auth_uid post_id = on_posts (Repository.delete_post t auth_uid post_id)
