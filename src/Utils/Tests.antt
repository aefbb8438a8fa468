-- ===== src/Utils/Tests.antt =====
-- The pages at concrete totals.
use personal_blog_service.Common.{
  ℕ, ◌+◌, ◌<◌, ◌/◌, ◌≤◌, ◌↔◌, ◌≡◌, refl, ◌-◌, ◌*◌, min, ltb, [], arith,
}
use personal_blog_service.Exec.{ok}
use personal_blog_service.Utils.Pagination.{
  take, get_skip, get_last_page, PaginationMetaDto, to_pagination_dto,
}
use personal_blog_service.Utils.Pagination.Pages.{get_skip-get_last_page, to_pagination_dto_flags}

-- Item 44 of 45 is on the third page, which is one of the pages.
get_skip-get_last_page_example :
    (skip : ℕ) × (get_skip 3 ≡ ok skip)
    × ((3 ≤ get_last_page 45) ↔ (skip < 45))
    × (((skip ≤ 44) × (44 < skip + take)) ↔ (◌≡◌ {A = ℕ} 3 (44 / take + 1)))
    × (44 / take + 1 ≤ get_last_page 45)
get_skip-get_last_page_example = get_skip-get_last_page 45 44 3 (omega arith) (omega arith)

last_of_45 : get_last_page 45 ≡ 3
unfolding get_last_page
last_of_45 = refl

-- The ninth page of 45 items is answered as the third.
to_pagination_dto_flags_example :
    (meta : PaginationMetaDto) × (to_pagination_dto {T = ℕ} [] 45 9
      ≡ ok (record { data_list = []; pagination_meta = meta }))
    × (1 ≤ meta.current_page)
    × (meta.last_page ≡ get_last_page 45)
    × (meta.current_page ≡ min 9 meta.last_page)
    × (meta.has_next_page ≡ ltb (meta.current_page * take) 45)
    × (meta.has_previous_page ≡ ltb 0 ((meta.current_page - 1) * take))
to_pagination_dto_flags_example = to_pagination_dto_flags {T = ℕ} [] 45 9 (omega arith)
