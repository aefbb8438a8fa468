-- ===== src/Posts/Listing.antt =====
-- A page of posts is a window of the rows: the listing refines `page_of`.
use personal_blog_service.Common.{
  ℕ, ◌-◌, ◌*◌, ◌≤◌, ◌<◌, min, ltb, String, ◌≡◌, refl, sym, ap, ◌∙◌, inl, inr, Bool, true, false,
  List, [], ◌∷◌, map, length, Bool-cases, ltb→lt, arith,
}
use personal_blog_service.Exec.{ok-injective, ok, pure, lift, bind-ok, ◌>>=◌}
use personal_blog_service.Orm.{Table}
use personal_blog_service.UserInfo.Repository.{UserInfoEntity}
use personal_blog_service.Likes.Repository.{LikeTable}
use personal_blog_service.Likes.Service.{PostMap, get_or_empty, get_post_like_map_by_post_ids}
use personal_blog_service.Utils.Pagination.{
  take, get_last_page, pagination_meta, PaginationMetaDto, PaginationDto, to_pagination_dto,
}
use personal_blog_service.Posts.Table.{PostEntity, PostTable, window}
use personal_blog_service.Posts.Repository.{Query}
use personal_blog_service.Posts.Service.{
  PostDto, to_post_dto, State, Action, post_ids_of, to_post_dto_list, clamped, get_post_page_list,
  on_posts, on_blog,
}

-- The abstract page: the rows on it, and the numbers that go with it.
pub record Page : Type 0 where
  pub rows : List PostEntity
  pub meta : PaginationMetaDto

-- Page `page` of some rows, or their last page if there is no such page.
unfoldable pub page_of : ℕ → List PostEntity → Page
page_of page rows =
    let last = get_last_page (length rows) in
    let current = min page last in
    record {
      rows = window take ((current - 1) * take) rows;
      meta = pagination_meta (length rows) current last;
    }

-- What a client sees of a row, but for the nicknames.
abbrev pub row_of : PostDto → PostEntity
row_of d = record {
  post_id = d.post_id;
  post_uid = d.post_uid;
  title = d.title;
  write_datetime = d.write_datetime;
  contents = d.contents;
  hits = d.hits;
}

abbrev pub view : PaginationDto PostDto → Page
view p = record { rows = map row_of p.data_list; meta = p.pagination_meta }

rows-to_dto :
    (nicknames : PostEntity → List String) (es : List PostEntity)
    → map row_of (map (λ e. to_post_dto e (nicknames e)) es) ≡ es
rows-to_dto nicknames [] = refl
rows-to_dto nicknames (e ∷ es) = ap (λ l. e ∷ l) (rows-to_dto nicknames es)

-- What is shown of some rows.
abbrev pub shown : List PostEntity → ℕ → ℕ → Page
shown es total current = record {
  rows = es;
  meta = pagination_meta total (min current (get_last_page total)) (get_last_page total);
}

shown_page :
    (page : ℕ) (rows es : List PostEntity) (total current : ℕ)
    → es ≡ window take ((current - 1) * take) rows
    → total ≡ length rows
    → current ≡ min page (get_last_page (length rows))
    → shown es total current ≡ page_of page rows
unfolding page_of
shown_page page rows es total current p q r =
    let last = get_last_page (length rows) in
    let once : min (min page last) last ≡ min page last = omega arith in
    (λ i. shown (p i) (q i) (r i))
    ∙ rw r (
        ap
          (λ n. record {
            rows = window take ((min page last - 1) * take) rows;
            meta = pagination_meta (length rows) n last;
          })
          once)

paginated :
    (items : List PostDto) (total current : ℕ) (dto : PaginationDto PostDto)
    → to_pagination_dto items total current ≡ ok dto
    → view dto ≡ shown (map row_of items) total current
unfolding to_pagination_dto
paginated items total current dto h = elim (Bool-cases (ltb current 1)) [
  | inl low ↦ ground arith
  | inr high ↦ ground arith
]

module _ (t : PostTable) where
  -- The query for a page, in a state where it is not answered from a cache.
  abbrev pub Finds : (ℕ → Query t (List PostEntity × ℕ)) → List PostEntity → ℕ → t.State → Type 0
  Finds find rows page s =
      (r : List PostEntity × ℕ)
      → (find page s).0 ≡ ok r
      → (1 ≤ page) × (r ≡ (window take ((page - 1) * take) rows, length rows))

module _ (t : PostTable) (likes : LikeTable) (users : Table UserInfoEntity) where
  -- The nicknames change nothing of the posts, and no row.
  to_post_dto_list_lem :
      (es : List PostEntity) (s : State t likes users) (dtos : List PostDto)
      → (to_post_dto_list t likes users es s).0 ≡ ok dtos
      → (map row_of dtos ≡ es) × ((to_post_dto_list t likes users es s).1.posts ≡ s.posts)
  unfolding to_post_dto_list
  to_post_dto_list_lem es s dtos h =
      let fill = λ (m : PostMap (List String)).
        pure {S = State t likes users} (map (λ e. to_post_dto e (get_or_empty e.post_id m)) es) in
      let (m, _, done, same) =
        bind-ok fill
          (on_blog t likes users (get_post_like_map_by_post_ids likes users (post_ids_of es))) s
          dtos h in
      (
        ap (map row_of) (ok-injective (sym done)) ∙ rows-to_dto (λ e. get_or_empty e.post_id m) es,
        ap (λ u. u.posts) same,
      )

  -- The stages of a listing.
  abbrev pub answered : ℕ → ℕ → List PostDto → Action t likes users (PaginationDto PostDto)
  answered total current dtos = lift (to_pagination_dto dtos total current)

  abbrev pub filled : ℕ → List PostEntity × ℕ → Action t likes users (PaginationDto PostDto)
  filled total (es, current) = to_post_dto_list t likes users es >>= answered total current

  module _ (find : ℕ → Query t (List PostEntity × ℕ)) (page : ℕ) where
    abbrev pub paged : List PostEntity × ℕ → Action t likes users (PaginationDto PostDto)
    paged (initial, total) =
        clamped t likes users find page (get_last_page total) initial >>= filled total

    -- A listing that answers has found a page, perhaps another one in its place, and shows it.
    pub listed :
        (s : State t likes users) (dto : PaginationDto PostDto)
        → (get_post_page_list t likes users find page s).0 ≡ ok dto
        → (initial : List PostEntity) × (total : ℕ) × (es : List PostEntity) × (current : ℕ)
          × ((find page s.posts).0 ≡ ok (initial, total))
          × ((clamped t likes users find page
                (get_last_page total)
                initial
                (record s { posts = (find page s.posts).1 })).0
              ≡ ok (es, current))
          × (view dto ≡ shown es total current)
    listed s dto h =
        let ((initial, total), found, rest, _) =
          bind-ok paged (on_posts t likes users (find page)) s dto h in
        let s' = (on_posts t likes users (find page) s).1 in
        let clamp = clamped t likes users find page (get_last_page total) initial in
        let ((es, current), kept, rest', _) = bind-ok (filled total) clamp s' dto rest in
        let (dtos, fill, last, _) =
          bind-ok (answered total current) (to_post_dto_list t likes users es) (clamp s').1 dto
            rest' in
        let (same, _) = to_post_dto_list_lem es (clamp s').1 dtos fill in
        (
          initial,
          total,
          es,
          current,
          found,
          kept,
          paginated dtos total current dto last ∙ ap (λ rows. shown rows total current) same,
        )

  module _ (find : ℕ → Query t (List PostEntity × ℕ)) (page : ℕ) (rows : List PostEntity)
      (s : State t likes users) (first : Finds t find rows page s.posts)
      (second : get_last_page (length rows) < page
        → Finds t find rows (get_last_page (length rows)) (find page s.posts).1) where
    at_page :
        (past : Bool) (es initial : List PostEntity) (current : ℕ)
        → ltb (get_last_page (length rows)) page ≡ past
        → initial ≡ window take ((page - 1) * take) rows
        → (clamped t likes users find page
            (get_last_page (length rows))
            initial
            (record s { posts = (find page s.posts).1 })).0
          ≡ ok (es, current)
        → (current ≡ min page (get_last_page (length rows)))
          × (es ≡ window take ((current - 1) * take) rows)
    at_page false es initial current e found h =
        let same = ok-injective (rw e at h) in
        let now : page ≡ current = ap (λ p. p.1) same in
        (
          ground arith,
          sym (ap (λ p. p.0) same) ∙ found ∙ ap (λ n. window take ((n - 1) * take) rows) now,
        )
    at_page true es initial current e found h =
        let last = get_last_page (length rows) in
        let (r, again, done, _) =
          bind-ok (λ (r : List PostEntity × ℕ). pure {S = State t likes users} (r.0, last))
            (on_posts t likes users (find last)) (record s { posts = (find page s.posts).1 })
            (es, current) (rw e at h) in
        let same = ok-injective done in
        let now : last ≡ current = ap (λ p. p.1) same in
        let (_, rows_of_last) = second (ltb→lt _ _ e) r again in
        (
          ground arith,
          sym (ap (λ p. p.0) same)
              ∙ ap (λ p. p.0) rows_of_last
              ∙ ap (λ n. window take ((n - 1) * take) rows) now,
        )

    -- What a listing answers from the table is the page of the rows.
    pub get_post_page_list-page_of :
        (dto : PaginationDto PostDto)
        → (get_post_page_list t likes users find page s).0 ≡ ok dto
        → view dto ≡ page_of page rows
    unfolding page_of
    get_post_page_list-page_of dto h =
        let (initial, total, es, current, found, kept, seen) = listed find page s dto h in
        let (positive, same) = first (initial, total) found in
        let count : total ≡ length rows = ap (λ p. p.1) same in
        let clamp = λ (n : ℕ).
          (clamped t likes users find page (get_last_page n) initial
            (record s { posts = (find page s.posts).1 })).0 in
        let (now, window_of) =
          at_page _ es initial current refl (ap (λ p. p.0) same) (ap clamp (sym count) ∙ kept) in
        seen ∙ shown_page page rows es total current window_of count now
