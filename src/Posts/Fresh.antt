-- ===== src/Posts/Fresh.antt =====
-- A listing that no cached result answers: it shows the page of the rows in the table.
use personal_blog_service.Common.{
  ℕ, ◌-◌, ◌*◌, ◌≤◌, ◌<◌, String, decimal-injective, ◌≡◌, refl, ap, ◌∙◌, ◌⊎◌, inl, inr, Option, none,
  some, List, length, select, arith,
}
use mathlib.Core.Path.{subst}
use text.Mathlib.TextLemmas.{append_cancel_left}
use personal_blog_service.Exec.{ok}
use personal_blog_service.Orm.{Table, TableLaws}
use personal_blog_service.UserInfo.Repository.{UserInfoEntity, info_key}
use personal_blog_service.Likes.Repository.{LikeTable}
use personal_blog_service.Utils.Pagination.{take, get_last_page, PaginationDto}
use personal_blog_service.Utils.CacheIds.{
  get_post_entity_list_by_page_cache_id, get_post_entity_list_by_post_page_dto_cache_id,
}
use personal_blog_service.Utils.Time.{get_tic_time_hms, get_tic_time_ms}
use personal_blog_service.Posts.Table.{PostEntity, PostTable, PostTableLaws, is_by}
use personal_blog_service.Posts.Repository.{
  find_post_entity_list_and_count_by_page, find_post_entity_list_and_count_by_post_page_dto,
}
use personal_blog_service.Posts.Service.{
  PostDto, State, get_post_page_list, get_post_page_list_by_page, get_post_page_list_by_post_uid,
}
use personal_blog_service.Posts.Listing.{page_of, view, Finds, get_post_page_list-page_of}
use personal_blog_service.Posts.Answers.{
  find, skipped, same_state, IsUp, LikersHaveInfo, get_post_page_list_returns,
}

-- No live result stands under a cache id.
abbrev pub NothingCached : (t : PostTable) → String → t.State → Type 0
NothingCached t id s = (t.cached_rows s id ≡ none) × (t.cached_count s id ≡ none)

-- The rows that a listing is about.
abbrev pub rows_at : (t : PostTable) → Option String → t.State → List PostEntity
rows_at t where_uid s = select (is_by where_uid) (t.posts s)

module _ (t : PostTable) (laws : PostTableLaws t) (where_uid : Option String) (id : ℕ → String)
    (ms : ℕ) where
  find-Finds :
      (page : ℕ) (s : t.State)
      → NothingCached t (id page) s
      → Finds t (find t where_uid id ms) (rows_at t where_uid s) page s
  find-Finds page s (no_rows, no_count) r h =
      let (positive, done) = skipped t where_uid id ms page s r h in
      (
        positive,
        laws.find_and_count_ok where_uid take ((page - 1) * take) (id page) ms s r done
            ∙ rw (no_rows, no_count) refl,
      )

module _ (t : PostTable) (likes : LikeTable) (users : Table UserInfoEntity) (laws : PostTableLaws t)
    (infos : TableLaws users info_key) (up : IsUp t likes users) where
  -- The first query leaves the other pages uncached, and the rows alone.
  still_uncached :
      (where_uid : Option String) (id : ℕ → String) (ms page last : ℕ) (s : t.State)
      → ((m n : ℕ) → id m ≡ id n → m ≡ n)
      → 1 ≤ page
      → last < page
      → NothingCached t (id last) s
      → NothingCached t (id last) (find t where_uid id ms page s).1
  still_uncached where_uid id ms page last s distinct positive below (no_rows, no_count) =
      let skip = (page - 1) * take in
      rw (same_state t where_uid id ms page s positive) (
        apart (laws.cached_rows-find_and_count where_uid take skip (id page) ms s (id last))
            no_rows,
        apart (laws.cached_count-find_and_count where_uid take skip (id page) ms s (id last))
            no_count,
      )
    where
      apart :
          {A : Type 0} {new old : Option A}
          → (new ≡ old) ⊎ (id page ≡ id last)
          → old ≡ none
          → new ≡ none
      apart (inl e) h = e ∙ h
      apart (inr e) h = let clash = distinct page last e in absurd (omega arith)

  listing-page_of :
      (where_uid : Option String) (id : ℕ → String) (ms page : ℕ) (s : State t likes users)
      → ((m n : ℕ) → id m ≡ id n → m ≡ n)
      → LikersHaveInfo likes users s.blog
      → 1 ≤ page
      → NothingCached t (id page) s.posts
      → NothingCached t (id (get_last_page (length (rows_at t where_uid s.posts)))) s.posts
      → (dto : PaginationDto PostDto) × ((get_post_page_list t likes users
            (find t where_uid id ms)
            page
            s).0
          ≡ ok dto)
        × (view dto ≡ page_of page (rows_at t where_uid s.posts))
  listing-page_of where_uid id ms page s distinct known positive here there =
      let query = find t where_uid id ms in
      let rows = rows_at t where_uid s.posts in
      let last = get_last_page (length rows) in
      let (dto, e) =
        get_post_page_list_returns t likes users infos up where_uid id ms page s known positive in
      let same : rows_at t where_uid (query page s.posts).1 ≡ rows =
        rw (same_state t where_uid id ms page s.posts positive) (
          ap (select (is_by where_uid))
            (laws.posts-find_and_count where_uid take ((page - 1) * take) (id page) ms s.posts)) in
      (
        dto,
        e,
        get_post_page_list-page_of t likes users query page rows s
            (find-Finds t laws where_uid id ms page s.posts here)
            (λ below.
              subst (λ l. Finds t query l last (query page s.posts).1) same
                (find-Finds t laws where_uid id ms last (query page s.posts).1
                  (still_uncached where_uid id ms page last s.posts distinct positive below there)))
            dto e,
      )

  -- Two pages have two cache ids.
  page_ids :
      (m n : ℕ)
      → get_post_entity_list_by_page_cache_id m ≡ get_post_entity_list_by_page_cache_id n
      → m ≡ n
  unfolding get_post_entity_list_by_page_cache_id
  page_ids m n e = decimal-injective m n (append_cancel_left "getPostEntityListByPage_" _ _ e)

  -- A listing of all posts answers with the page of the rows in the table, and past the last page
  -- with the last one, if the database answers, there is information on everybody who likes a post,
  -- the page is 1 or more and neither page is cached.
  pub get_post_page_list_by_page-page_of :
      (page : ℕ) (s : State t likes users)
      → LikersHaveInfo likes users s.blog
      → 1 ≤ page
      → NothingCached t (get_post_entity_list_by_page_cache_id page) s.posts
      → NothingCached t
          (get_post_entity_list_by_page_cache_id (get_last_page (length (rows_at t none s.posts))))
          s.posts
      → (dto : PaginationDto PostDto) × ((get_post_page_list_by_page t likes users page s).0
          ≡ ok dto)
        × (view dto ≡ page_of page (rows_at t none s.posts))
  unfolding get_post_page_list_by_page find_post_entity_list_and_count_by_page
  get_post_page_list_by_page-page_of page s known positive here there =
      listing-page_of none get_post_entity_list_by_page_cache_id (get_tic_time_ms 5 0) page s
        page_ids known positive here there

  uid_ids :
      (uid : String) (m n : ℕ)
      → get_post_entity_list_by_post_page_dto_cache_id uid m
        ≡ get_post_entity_list_by_post_page_dto_cache_id uid n
      → m ≡ n
  unfolding get_post_entity_list_by_post_page_dto_cache_id
  uid_ids uid m n e = decimal-injective m n (
      append_cancel_left "_" _ _
        (append_cancel_left uid _ _ (append_cancel_left "getPostEntityListByPostPageDto_" _ _ e)))

  -- The same for the posts of one user.
  pub get_post_page_list_by_post_uid-page_of :
      (post_uid : String) (page : ℕ) (s : State t likes users)
      → LikersHaveInfo likes users s.blog
      → 1 ≤ page
      → NothingCached t (get_post_entity_list_by_post_page_dto_cache_id post_uid page) s.posts
      → NothingCached t
          (get_post_entity_list_by_post_page_dto_cache_id post_uid
            (get_last_page (length (rows_at t (some post_uid) s.posts))))
          s.posts
      → (dto : PaginationDto PostDto) × ((get_post_page_list_by_post_uid t likes users post_uid page
            s).0
          ≡ ok dto)
        × (view dto ≡ page_of page (rows_at t (some post_uid) s.posts))
  unfolding get_post_page_list_by_post_uid find_post_entity_list_and_count_by_post_page_dto
  get_post_page_list_by_post_uid-page_of post_uid page s known positive here there =
      listing-page_of (some post_uid) (get_post_entity_list_by_post_page_dto_cache_id post_uid)
        (get_tic_time_hms 24 0 0) page s (uid_ids post_uid) known positive here there
