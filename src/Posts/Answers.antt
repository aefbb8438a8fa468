-- ===== src/Posts/Answers.antt =====
-- A listing with a database that answers: it answers.
use personal_blog_service.Common.{
  ℕ, ◌-◌, ◌*◌, ◌≤◌, min, Bool, ltb, String, ◌≡◌, refl, sym, ap, ◌∙◌, inl, inr, Option, true, false,
  List, map, Bool-cases, arith, All,
}
use mathlib.Core.Path.{subst}
use personal_blog_service.Exec.{ok, lift, pure, bind-of_ok, ◌>>=◌}
use personal_blog_service.Orm.{Table, TableLaws}
use personal_blog_service.UserInfo.Repository.{UserInfoEntity, info_key}
use personal_blog_service.Likes.Repository.{
  PostLikeEntity, LikeTable, find_post_like_entities_by_post_ids,
}
use personal_blog_service.Likes.Nicknames.{HasInfo, ReadsInfos, get_post_like_map_lem}
use personal_blog_service.Likes.Service.{Blog, PostMap, get_or_empty, get_post_like_map_by_post_ids}
use personal_blog_service.Utils.Pagination.{
  take, get_skip, get_last_page, PaginationDto, pagination_meta, to_pagination_dto,
}
use personal_blog_service.Posts.Table.{PostEntity, PostTable}
use personal_blog_service.Posts.Repository.{Query}
use personal_blog_service.Posts.Service.{
  PostDto, State, to_post_dto, post_ids_of, on_posts, on_blog, to_post_dto_list, clamped,
  get_post_page_list,
}
use personal_blog_service.Posts.Listing.{paged, filled, answered}

module _ (t : PostTable) (where_uid : Option String) (id : ℕ → String) (ms : ℕ) where
  -- Both queries of the repository.
  abbrev pub find : ℕ → Query t (List PostEntity × ℕ)
  find page = lift (get_skip page) >>= λ skip. t.find_and_count where_uid take skip (id page) ms

  abbrev pub direct : ℕ → Query t (List PostEntity × ℕ)
  direct page = t.find_and_count where_uid take ((page - 1) * take) (id page) ms

  pub skipped :
      (page : ℕ) (s : t.State) (r : List PostEntity × ℕ)
      → (find page s).0 ≡ ok r
      → (1 ≤ page) × ((direct page s).0 ≡ ok r)
  unfolding get_skip
  skipped page s r h = elim (Bool-cases (ltb page 1)) [
    | inl low ↦ let h' = rw low at h in ground arith
    | inr high ↦ (ground arith, rw high at h)
  ]

  pub same_state : (page : ℕ) (s : t.State) → 1 ≤ page → find page s ≡ direct page s
  unfolding get_skip
  same_state page s h = let high : ltb page 1 ≡ false = ground arith in rw high refl

last_pos : (total : ℕ) → 1 ≤ get_last_page total
unfolding get_last_page
last_pos total = omega arith

-- The database answers.
pub record IsUp (t : PostTable) (likes : LikeTable) (users : Table UserInfoEntity) : Type 0 where
  pub finds :
      (where_uid : Option String) (count skip : ℕ) (id : String) (ms : ℕ) (s : t.State)
      → (r : List PostEntity × ℕ) × ((t.find_and_count where_uid count skip id ms s).0 ≡ ok r)
  pub finds_likes :
      (post_ids : List ℕ) (s : likes.State)
      → (es : List PostLikeEntity) × ((find_post_like_entities_by_post_ids likes post_ids s).0
          ≡ ok es)
  pub reads : ReadsInfos users

-- There is information, stored or cached, on everybody who likes a post.
abbrev pub LikersHaveInfo :
    (likes : LikeTable) (users : Table UserInfoEntity) → Blog likes.State users.State → Type 0
LikersHaveInfo likes users b =
    (post_ids : List ℕ) (es : List PostLikeEntity)
    → (find_post_like_entities_by_post_ids likes post_ids b.likes).0 ≡ ok es
    → All (HasInfo users b.infos) es

module _ (t : PostTable) (likes : LikeTable) (users : Table UserInfoEntity)
    (infos : TableLaws users info_key) (up : IsUp t likes users) where
  to_post_dto_list_returns :
      (es : List PostEntity) (s : State t likes users)
      → LikersHaveInfo likes users s.blog
      → (dtos : List PostDto) × ((to_post_dto_list t likes users es s).0 ≡ ok dtos)
  unfolding to_post_dto_list
  to_post_dto_list_returns es s known =
      let fill = λ (m : PostMap (List String)).
        pure {S = State t likes users} (map (λ e. to_post_dto e (get_or_empty e.post_id m)) es) in
      let (found, query) = up.finds_likes (post_ids_of es) s.blog.likes in
      let (m, e, _) =
        get_post_like_map_lem likes users infos up.reads 0 (post_ids_of es) s.blog found query
          (known (post_ids_of es) found query) in
      (
        map (λ e. to_post_dto e (get_or_empty e.post_id m)) es,
        ap (λ x. x.0)
            (bind-of_ok fill
              (on_blog t likes users (get_post_like_map_by_post_ids likes users (post_ids_of es))) s
              m e),
      )

  to_pagination_dto_returns :
      (items : List PostDto) (total current : ℕ)
      → 1 ≤ current
      → (dto : PaginationDto PostDto) × (to_pagination_dto items total current ≡ ok dto)
  unfolding to_pagination_dto
  to_pagination_dto_returns items total current h =
      let high : ltb current 1 ≡ false = ground arith in
      (
        record {
          data_list = items;
          pagination_meta =
              pagination_meta total (min current (get_last_page total)) (get_last_page total);
        },
        rw high refl,
      )

  module _ (where_uid : Option String) (id : ℕ → String) (ms : ℕ) where
    find_returns :
        (page : ℕ) (s : State t likes users)
        → 1 ≤ page
        → (r : List PostEntity × ℕ) × ((on_posts t likes users (find t where_uid id ms page) s).0
            ≡ ok r)
    find_returns page s h =
        let (r, e) = up.finds where_uid take ((page - 1) * take) (id page) ms s.posts in
        (r, ap (λ x. x.0) (same_state t where_uid id ms page s.posts h) ∙ e)

    clamped_returns :
        (page last : ℕ) (past : Bool) (initial : List PostEntity) (s : State t likes users)
        → 1 ≤ page
        → 1 ≤ last
        → ltb last page ≡ past
        → (es : List PostEntity) × (current : ℕ) × (1 ≤ current)
          × ((clamped t likes users (find t where_uid id ms) page last initial s).0
              ≡ ok (es, current))
          × ((clamped t likes users (find t where_uid id ms) page last initial s).1.blog ≡ s.blog)
    clamped_returns page last false initial s h h' e = (initial, page, h, rw e refl, rw e refl)
    clamped_returns page last true initial s h h' e =
        let ((es, n), found) = find_returns last s h' in
        let steps =
          bind-of_ok (λ (r : List PostEntity × ℕ). pure {S = State t likes users} (r.0, last))
            (on_posts t likes users (find t where_uid id ms last)) s (es, n) found in
        (es, last, h', rw e (ap (λ x. x.0) steps), rw e (ap (λ x. x.1.blog) steps))

    -- With a database that answers, and information on everybody who likes a post, a listing of a
    -- page answers.
    pub get_post_page_list_returns :
        (page : ℕ) (s : State t likes users)
        → LikersHaveInfo likes users s.blog
        → 1 ≤ page
        → (dto : PaginationDto PostDto) × ((get_post_page_list t likes users
              (find t where_uid id ms)
              page
              s).0
            ≡ ok dto)
    get_post_page_list_returns page s known h =
        let query = find t where_uid id ms in
        let ((initial, total), found) = find_returns page s h in
        let s' = (on_posts t likes users (query page) s).1 in
        let last = get_last_page total in
        let (es, current, low, kept, blog) =
          clamped_returns page last (ltb last page) initial s' h (last_pos total) refl in
        let s'' = (clamped t likes users query page last initial s').1 in
        let (dtos, fill) =
          to_post_dto_list_returns es s'' (subst (LikersHaveInfo likes users) (sym blog) known) in
        let (dto, end) = to_pagination_dto_returns dtos total current low in
        (
          dto,
          ap (λ x. x.0)
                (bind-of_ok (paged t likes users query page) (on_posts t likes users (query page)) s
                  (initial, total) found)
              ∙ ap (λ x. x.0)
                  (bind-of_ok (filled t likes users total)
                    (clamped t likes users query page last initial) s' (es, current) kept)
              ∙ ap (λ x. x.0)
                  (bind-of_ok (answered t likes users total current)
                    (to_post_dto_list t likes users es) s'' dtos fill)
              ∙ end,
        )
