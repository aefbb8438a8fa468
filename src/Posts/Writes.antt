-- ===== src/Posts/Writes.antt =====
-- What a user's writes do: they touch no post of another user, and no cached listing.
use personal_blog_service.Common.{
  ℕ, ◌≤◌, ltb, String, str_eq, eq_refl, ◌≡◌, refl, sym, ap, ◌∙◌, inl, inr, Bool, false, not, some,
  List, [], ◌∷◌, map, select, Bool-cases, arith,
}
use mathlib.Core.Path.{subst}
use personal_blog_service.Exec.{ok-injective, ok}
use personal_blog_service.Orm.{Table, TableLaws}
use personal_blog_service.UserInfo.Repository.{UserInfoEntity, info_key}
use personal_blog_service.Likes.Repository.{LikeTable}
use personal_blog_service.Utils.Pagination.{get_last_page, PaginationDto, pagination_meta}
use personal_blog_service.Utils.CacheIds.{get_post_entity_list_by_post_page_dto_cache_id}
use personal_blog_service.Utils.Time.{get_tic_time_hms}
use personal_blog_service.Posts.Listing.{row_of, listed}
use personal_blog_service.Posts.Answers.{
  IsUp, LikersHaveInfo, find, skipped, get_post_page_list_returns,
}
use personal_blog_service.Posts.Table.{PostEntity, PostTable, PostTableLaws, is_of, map_where}
use personal_blog_service.Posts.Repository
use personal_blog_service.Posts.Repository.{
  CreatePostDto, PatchPostDto, find_post_entity_list_and_count_by_post_page_dto, is_empty_patch,
  patched,
}
use personal_blog_service.Posts.Service.{
  PostDto, State, Action, create_post, update_post, delete_post, get_post_page_list_by_post_uid,
}

-- The three writes of the service.
pub data Write : Type 0 where
  creates : CreatePostDto → Write
  patches : ℕ → PatchPostDto → Write
  deletes : ℕ → Write

-- Another user's post.
abbrev pub is_not_by : String → PostEntity → Bool
is_not_by uid e = not (str_eq e.post_uid uid)

others-update :
    (post_id : ℕ) (uid : String) (d : PatchPostDto) (es : List PostEntity)
    → select (is_not_by uid) (map_where (is_of post_id uid) (patched d) es)
      ≡ select (is_not_by uid) es
others-update post_id uid d [] = refl
others-update post_id uid d (e ∷ es) = ground (arith, others-update post_id uid d es)

others-delete :
    (post_id : ℕ) (uid : String) (es : List PostEntity)
    → select (is_not_by uid) (select (λ e. not (is_of post_id uid e)) es)
      ≡ select (is_not_by uid) es
others-delete post_id uid [] = refl
others-delete post_id uid (e ∷ es) = ground (arith, others-delete post_id uid es)

module _ (t : PostTable) (likes : LikeTable) (users : Table UserInfoEntity) where
  abbrev pub perform : String → Write → Action t likes users (Unit {0})
  perform uid (creates d) = create_post t likes users uid d
  perform uid (patches post_id d) = update_post t likes users uid post_id d
  perform uid (deletes post_id) = delete_post t likes users uid post_id

  module _ (laws : PostTableLaws t) where
    updated :
        (uid : String) (post_id : ℕ) (d : PatchPostDto) (s : t.State)
        → (Repository.update_post t uid post_id d s).0 ≡ ok tt
        → select (is_not_by uid) (t.posts (Repository.update_post t uid post_id d s).1)
          ≡ select (is_not_by uid) (t.posts s)
    unfolding Repository.update_post
    updated uid post_id d s h = elim (Bool-cases (is_empty_patch d)) [
      | inl e ↦ rw e refl
      | inr e ↦ rw e (
          ap (select (is_not_by uid)) (laws.posts-update post_id uid (patched d) s (rw e at h))
          ∙ others-update post_id uid d (t.posts s))
    ]

    -- Once a creation, change or deletion by a user has succeeded, the posts of all others are as they
    -- were.
    pub others-perform :
        (uid : String) (w : Write) (s : State t likes users)
        → (perform uid w s).0 ≡ ok tt
        → select (is_not_by uid) (t.posts (perform uid w s).1.posts)
          ≡ select (is_not_by uid) (t.posts s.posts)
    unfolding create_post update_post delete_post Repository.create_post Repository.delete_post
    others-perform uid (creates d) s h =
        let (e, posts, own, _, _, _, _) = laws.posts-insert _ s.posts h in
        ap (select (is_not_by uid)) posts ∙ rw (own, eq_refl uid) refl
    others-perform uid (patches post_id d) s h = updated uid post_id d s.posts h
    others-perform uid (deletes post_id) s h =
        ap (select (is_not_by uid)) (laws.posts-delete post_id uid s.posts h)
        ∙ others-delete post_id uid (t.posts s.posts)

    patch_cached :
        (uid : String) (post_id : ℕ) (d : PatchPostDto) (s : t.State) (id : String)
        → let u = (Repository.update_post t uid post_id d s).1 in
          (t.cached_rows u id ≡ t.cached_rows s id) × (t.cached_count u id ≡ t.cached_count s id)
    unfolding Repository.update_post
    patch_cached uid post_id d s id = elim (Bool-cases (is_empty_patch d)) [
      | inl e ↦ rw e (refl, refl)
      | inr e ↦ rw e (laws.cached-update post_id uid (patched d) s id)
    ]

    perform_cached :
        (uid : String) (w : Write) (s : State t likes users) (id : String)
        → let u = (perform uid w s).1.posts in
          (t.cached_rows u id ≡ t.cached_rows s.posts id)
          × (t.cached_count u id ≡ t.cached_count s.posts id)
    unfolding create_post update_post delete_post Repository.create_post Repository.delete_post
    perform_cached uid (creates d) s id = laws.cached-insert _ s.posts id
    perform_cached uid (patches post_id d) s id = patch_cached uid post_id d s.posts id
    perform_cached uid (deletes post_id) s id = laws.cached-delete post_id uid s.posts id

    perform_blog :
        (uid : String) (w : Write) (s : State t likes users) → (perform uid w s).1.blog ≡ s.blog
    unfolding create_post update_post delete_post
    perform_blog uid (creates d) s = refl
    perform_blog uid (patches post_id d) s = refl
    perform_blog uid (deletes post_id) s = refl

    -- A listing that answers while its page is cached shows what is cached.
    shown_while_cached :
        (uid post_uid : String) (w : Write) (page total : ℕ) (rows : List PostEntity)
        (s : State t likes users) (dto : PaginationDto PostDto)
        → t.cached_rows s.posts (get_post_entity_list_by_post_page_dto_cache_id post_uid page)
          ≡ some rows
        → t.cached_count s.posts (get_post_entity_list_by_post_page_dto_cache_id post_uid page)
          ≡ some total
        → page ≤ get_last_page total
        → (get_post_page_list_by_post_uid t likes users post_uid page (perform uid w s).1).0
          ≡ ok dto
        → (map row_of dto.data_list ≡ rows) × (dto.pagination_meta.total ≡ total)
    unfolding get_post_page_list_by_post_uid find_post_entity_list_and_count_by_post_page_dto
        pagination_meta
    shown_while_cached uid post_uid w page total rows s dto held held_count within h =
        let id = get_post_entity_list_by_post_page_dto_cache_id post_uid in
        let u = (perform uid w s).1 in
        let (same, same_count) = perform_cached uid w s (id page) in
        let query = find t (some post_uid) id (get_tic_time_hms 24 0 0) in
        let (initial, n, es, current, found, kept, seen) =
          listed t likes users query page u dto h in
        let (_, direct) =
          skipped t (some post_uid) id (get_tic_time_hms 24 0 0) page u.posts (initial, n) found in
        let answer = laws.find_and_count_ok _ _ _ _ _ u.posts (initial, n) direct in
        let rows_of : initial ≡ rows = ap (λ x. x.0) answer ∙ rw (same, held) refl in
        let count : n ≡ total = ap (λ x. x.1) answer ∙ rw (same_count, held_count) refl in
        let not_past : ltb (get_last_page n) page ≡ false = rw count (ground arith) in
        let stays = ok-injective (rw not_past at kept) in
        (
          ap (λ x. x.rows) seen ∙ sym (ap (λ x. x.0) stays) ∙ rows_of,
          ap (λ x. x.meta.total) seen ∙ count,
        )

    -- As long as a page of the listing of a user is cached, the listing answers with what is cached,
    -- whatever post any user has created, changed or deleted since, if the database answers, there is
    -- information on everybody who likes a post, and the page is one of the pages of the cached total.
    pub stale_listing :
        (infos : TableLaws users info_key) (up : IsUp t likes users) (uid post_uid : String)
        (w : Write) (page total : ℕ) (rows : List PostEntity) (s : State t likes users)
        → LikersHaveInfo likes users s.blog
        → t.cached_rows s.posts (get_post_entity_list_by_post_page_dto_cache_id post_uid page)
          ≡ some rows
        → t.cached_count s.posts (get_post_entity_list_by_post_page_dto_cache_id post_uid page)
          ≡ some total
        → 1 ≤ page
        → page ≤ get_last_page total
        → (dto : PaginationDto PostDto) × ((get_post_page_list_by_post_uid t likes users post_uid
              page
              (perform uid w s).1).0
            ≡ ok dto)
          × (map row_of dto.data_list ≡ rows)
          × (dto.pagination_meta.total ≡ total)
    unfolding get_post_page_list_by_post_uid find_post_entity_list_and_count_by_post_page_dto
    stale_listing infos up uid post_uid w page total rows s known held held_count positive within =
        let (dto, h) =
          get_post_page_list_returns t likes users infos up (some post_uid)
            (get_post_entity_list_by_post_page_dto_cache_id post_uid) (get_tic_time_hms 24 0 0) page
            (perform uid w s).1
            (subst (LikersHaveInfo likes users) (sym (perform_blog uid w s)) known) positive in
        let (shown, count) =
          shown_while_cached uid post_uid w page total rows s dto held held_count within h in
        (dto, h, shown, count)
