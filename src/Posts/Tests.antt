-- ===== src/Posts/Tests.antt =====
-- The posts in memory: tests, and their theorems at concrete inputs.
use personal_blog_service.Common.{
  ℕ, String, str_eq, decimal, ◌≡◌, refl, sym, ◌∙◌, All, none, some, List, [], ◌∷◌, map, select,
  arith, if◌then◌else◌, true,
}
use mathlib.Core.Path.{subst}
use personal_blog_service.Exec.{ok, throw}
use personal_blog_service.Failure.Exceptions.{invalid_page}
use personal_blog_service.Orm.Memory.{table_laws as infos_laws}
use personal_blog_service.UserInfo.Repository.{info_key}
use personal_blog_service.Likes.Repository.{PostLikeEntity}
use personal_blog_service.Likes.Nicknames.{HasInfo}
use personal_blog_service.Likes.Memory.{likes, users, ann_and_bob, reads, finds_likes}
use personal_blog_service.Utils.Pagination.{get_skip, get_last_page, PaginationDto}
use personal_blog_service.Utils.CacheIds.{get_post_entity_list_by_post_page_dto_cache_id}
use personal_blog_service.Posts.Table.{PostEntity}
use personal_blog_service.Posts.Repository
use personal_blog_service.Posts.Repository.{
  find_post_entity_list_and_count_by_page, find_post_entity_list_and_count_by_post_page_dto,
}
use personal_blog_service.Posts.Service.{
  PostDto, State, delete_post, get_post_page_list_by_page, get_post_page_list_by_post_uid,
}
use personal_blog_service.Posts.Listing.{row_of, view, page_of}
use personal_blog_service.Posts.Answers.{IsUp, LikersHaveInfo}
use personal_blog_service.Posts.Fresh.{rows_at, get_post_page_list_by_page-page_of}
use personal_blog_service.Posts.Writes.{
  creates, deletes, perform, is_not_by, others-perform, stale_listing,
}
use personal_blog_service.Posts.Memory.{table, table_laws}

up : IsUp table likes users
up = record {
  finds = λ where_uid count skip id ms s. (_, refl);
  finds_likes = λ post_ids s. let (es, found, _) = finds_likes post_ids s in (es, found);
  reads = reads;
}

same_likes : (es fs : List PostLikeEntity) → ok es ≡ ok fs → es ≡ fs
same_likes es fs h = cc

-- Ann and bob, whose likes the query shows, have information.
known : (s : likes.State) → LikersHaveInfo likes users (record { likes = s; infos = ann_and_bob })
known s post_ids es h =
    let (fs, found, has) = finds_likes post_ids s in
    subst (All (HasInfo users ann_and_bob)) (same_likes fs es (sym found ∙ h)) has

abbrev post : ℕ → String → PostEntity
post post_id uid = record {
  post_id = post_id;
  post_uid = uid;
  title = "Hello";
  write_datetime = "2026-01-01 00:00:00";
  contents = "World";
  hits = 0;
}

-- Two posts of ann and one of bob; nothing is cached.
abbrev site : State table likes users
site = record {
  posts = record {
    rows = post 3 "ann" ∷ post 2 "bob" ∷ post 1 "ann" ∷ [];
    pages = λ id. none;
    counts = λ id. none;
  };
  blog = record { likes = λ e. true; infos = ann_and_bob };
}

-- The ninth page of three posts is the first.
get_post_page_list_by_page-page_of_example :
    (dto : PaginationDto PostDto) × ((get_post_page_list_by_page table likes users 9 site).0
      ≡ ok dto)
    × (view dto ≡ page_of 9 (rows_at table none site.posts))
get_post_page_list_by_page-page_of_example =
    get_post_page_list_by_page-page_of table likes users table_laws (infos_laws info_key) up 9 site
      (known (λ e. true)) (omega arith) (refl, refl) (refl, refl)

rows_of_ann :
    (page_of 1 (rows_at table (some "ann") site.posts)).rows ≡ post 3 "ann" ∷ post 1 "ann" ∷ []
unfolding page_of get_last_page
rows_of_ann = refl

others-perform_example :
    select
      (is_not_by "ann")
      (table.posts (perform table likes users "ann" (deletes 3) site).1.posts)
    ≡ select (is_not_by "ann") (table.posts site.posts)
unfolding delete_post Repository.delete_post
others-perform_example = others-perform table likes users table_laws "ann" (deletes 3) site refl

-- Bob's post is not ann's to delete.
not_hers : (delete_post table likes users "ann" 2 site).1 ≡ site
unfolding delete_post Repository.delete_post
not_hers = refl

abbrev first_of_ann : String
first_of_ann = "getPostEntityListByPostPageDto_ann_1"

-- The first page of ann was cached when she had one post.
abbrev cached : State table likes users
cached = record site {
  posts = record site.posts {
    pages = λ id. if str_eq id first_of_ann then some (post 1 "ann" ∷ []) else none;
    counts = λ id. if str_eq id first_of_ann then some 1 else none;
  };
}

-- Her new post does not show.
stale_listing_example :
    (dto : PaginationDto PostDto) × ((get_post_page_list_by_post_uid table likes users "ann" 1
        (perform table likes users "ann"
          (creates (record { title = "New"; contents = "Post" }))
          cached).1).0
      ≡ ok dto)
    × (map row_of dto.data_list ≡ post 1 "ann" ∷ [])
    × (dto.pagination_meta.total ≡ 1)
unfolding get_post_entity_list_by_post_page_dto_cache_id decimal get_last_page
stale_listing_example =
    stale_listing table likes users table_laws (infos_laws info_key) up "ann" "ann"
      (creates (record { title = "New"; contents = "Post" })) 1 1 (post 1 "ann" ∷ []) cached
      (known (λ e. true)) refl refl (omega arith) (omega arith)

-- Page 0 makes no query.
page_zero : (get_post_page_list_by_page table likes users 0 site).0 ≡ throw (invalid_page 0)
unfolding get_post_page_list_by_page find_post_entity_list_and_count_by_page get_skip
page_zero = refl
