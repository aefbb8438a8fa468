-- ===== src/Utils/Pagination/Pages.antt =====
-- Which items the pages show.
use personal_blog_service.Common.{
  refl, ℕ, ◌+◌, ◌-◌, ◌*◌, ◌/◌, ◌<◌, ◌≤◌, ltb, min, ◌≡◌, ◌↔◌, List, arith,
}
use personal_blog_service.Exec.{ok}
use personal_blog_service.Utils.Pagination.{
  take, get_skip, get_last_page, PaginationMetaDto, pagination_meta, to_pagination_dto,
}

-- For item `i` of `total` items and a page from 1 on: the page is one of the pages exactly if its
-- first item is there, item `i` stands on the page exactly if the page is `i / 20 + 1`, and that one
-- is one of the pages.
pub get_skip-get_last_page :
    (total i page : ℕ)
    → i < total
    → 1 ≤ page
    → (skip : ℕ) × (get_skip page ≡ ok skip)
      × ((page ≤ get_last_page total) ↔ (skip < total))
      × (((skip ≤ i) × (i < skip + take)) ↔ (page ≡ i / take + 1))
      × (i / take + 1 ≤ get_last_page total)
unfolding get_last_page get_skip
get_skip-get_last_page total i page h positive = (
  (page - 1) * 20,
  ground arith,
  ((λ below. omega arith), (λ there. omega arith)),
  ((λ (low, high). omega arith), (λ same. (omega arith, omega arith))),
  omega arith,
)

-- For a page from 1 on, the page that is answered is the one that was asked for or, if there is no
-- such page, the last one, and its flags say whether an item stands before it and behind it.
pub to_pagination_dto_flags :
    {T : Type 0}
    → (items : List T) (total page : ℕ) → 1 ≤ page
    → (meta : PaginationMetaDto) × (to_pagination_dto items total page
        ≡ ok (record { data_list = items; pagination_meta = meta }))
      × (1 ≤ meta.current_page)
      × (meta.last_page ≡ get_last_page total)
      × (meta.current_page ≡ min page meta.last_page)
      × (meta.has_next_page ≡ ltb (meta.current_page * take) total)
      × (meta.has_previous_page ≡ ltb 0 ((meta.current_page - 1) * take))
unfolding to_pagination_dto get_last_page pagination_meta
to_pagination_dto_flags items total page h = (
  pagination_meta total (min page (get_last_page total)) (get_last_page total),
  ground arith,
  omega arith,
  refl,
  refl,
  ground arith,
  ground arith,
)
