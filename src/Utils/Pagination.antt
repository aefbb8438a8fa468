-- ===== src/Utils/Pagination.antt =====
-- src/utils/pagination.utils.ts and the page of src/blog/dto: which rows a page shows. A page
-- number is natural here: PageQueryDto refuses every other number before the services see it.
pub mod Pages
use personal_blog_service.Common.{ℕ, ◌+◌, ◌-◌, ◌*◌, ◌/◌, ltb, min, max, Bool, List, if◌then◌else◌}
use personal_blog_service.Failure.Exceptions.{invalid_page}
use personal_blog_service.Exec.{Result, ok, throw}

abbrev pub take : ℕ
take = 20

unfoldable pub get_skip : ℕ → Result ℕ
get_skip page = if ltb page 1 then throw (invalid_page page) else ok ((page - 1) * take)

-- Math.ceil of a quotient of naturals.
abbrev ceil_div : ℕ → ℕ → ℕ
ceil_div total n = (total + (n - 1)) / n

unfoldable pub get_last_page : ℕ → ℕ
get_last_page total = max 1 (ceil_div total take)

pub record PaginationMetaDto : Type 0 where
  pub total : ℕ
  pub current_page : ℕ
  pub last_page : ℕ
  pub has_previous_page : Bool
  pub has_next_page : Bool

-- The constructor.
unfoldable pub pagination_meta : ℕ → ℕ → ℕ → PaginationMetaDto
pagination_meta total current_page last_page = record {
  total = total;
  current_page = current_page;
  last_page = last_page;
  has_previous_page = ltb 1 current_page;
  has_next_page = ltb current_page last_page;
}

pub record PaginationDto (T : Type 0) : Type 0 where
  pub data_list : List T
  pub pagination_meta : PaginationMetaDto

unfoldable pub to_pagination_dto : {T : Type 0} → List T → ℕ → ℕ → Result (PaginationDto T)
unfolding get_last_page pagination_meta
to_pagination_dto data_list total current_page =
    if ltb current_page 1
    then throw (invalid_page current_page)
    else let last_page = get_last_page total in
      ok (record {
        data_list = data_list;
        pagination_meta = pagination_meta total (min current_page last_page) last_page;
      })
