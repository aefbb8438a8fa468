-- ===== src/Posts/Repository.antt =====
-- src/blog/repository/post.repository.ts: pages of posts through the query-result cache, and the
-- writes of an owner.
use personal_blog_service.Common.{
  ℕ, String, Bool, true, false, ◌&&◌, Option, none, some, List, if◌then◌else◌,
}
use personal_blog_service.Failure.Exceptions.{Thrown, error, post_not_found}
use personal_blog_service.Exec.{Exec, Result, ok, throw, pure, raise, lift, catch_error, ◌>>=◌}
use personal_blog_service.Auth.Repository.{is_entity_not_found}
use personal_blog_service.Utils.Pagination.{take, get_skip}
use personal_blog_service.Utils.CacheIds.{
  get_post_entity_list_by_page_cache_id, get_post_entity_list_by_post_page_dto_cache_id,
}
use personal_blog_service.Utils.Time.{get_tic_time_hms, get_tic_time_ms}
use personal_blog_service.Posts.Table.{PostEntity, PostTable}

-- The global validation, with `whitelist: true` (src/config/app-setup.ts), leaves a body these fields
-- alone, so that spreading it after the owner cannot name another one.
pub record CreatePostDto : Type 0 where
  pub title : String
  pub contents : String

-- `none` is undefined.
pub record PatchPostDto : Type 0 where
  pub title : Option String
  pub contents : Option String

pub record PostPageDto : Type 0 where
  pub post_uid : String
  pub page : ℕ

abbrev pub or_kept : Option String → String → String
or_kept none old = old
or_kept (some new) old = new

-- UPDATE with the fields of `updateData`.
abbrev pub patched : PatchPostDto → PostEntity → PostEntity
patched d e = record e { title = or_kept d.title e.title; contents = or_kept d.contents e.contents }

abbrev is_undefined : Option String → Bool
is_undefined none = true
is_undefined (some _) = false

-- Object.keys(updateData).length === 0
abbrev pub is_empty_patch : PatchPostDto → Bool
is_empty_patch d = is_undefined d.title && is_undefined d.contents

-- The `OrFail` of the query.
abbrev pub post_or_fail : Option PostEntity → Result PostEntity
post_or_fail none =
    throw (error "EntityNotFoundError" "Could not find any entity of type PostEntity")
post_or_fail (some e) = ok e

module _ (t : PostTable) where
  abbrev pub Query : Type 0 → Type 0
  Query = Exec t.State

  unfoldable pub create_post : String → CreatePostDto → Query (Unit {0})
  create_post auth_uid d =
      t.insert (record { post_uid = auth_uid; title = d.title; contents = d.contents })

  unfoldable pub find_post_entity_list_and_count_by_page : ℕ → Query (List PostEntity × ℕ)
  find_post_entity_list_and_count_by_page page = do
    skip ← lift (get_skip page)
    t.find_and_count none take skip (get_post_entity_list_by_page_cache_id page)
        (get_tic_time_ms 5 0)

  unfoldable pub find_post_entity_list_and_count_by_post_page_dto :
      PostPageDto → Query (List PostEntity × ℕ)
  find_post_entity_list_and_count_by_post_page_dto d = do
    skip ← lift (get_skip d.page)
    t.find_and_count (some d.post_uid) take skip
        (get_post_entity_list_by_post_page_dto_cache_id d.post_uid d.page) (get_tic_time_hms 24 0 0)

  -- A missing row is POST_NOT_FOUND, any other error goes on.
  abbrev pub not_found : ℕ → Thrown → Query PostEntity
  not_found post_id err = raise (if is_entity_not_found err then post_not_found post_id else err)

  unfoldable pub find_post_entity_by_post_id : ℕ → Query PostEntity
  find_post_entity_by_post_id post_id =
      catch_error (not_found post_id) (do found ← t.find_one post_id; lift (post_or_fail found))

  -- A patch of nothing makes no query.
  unfoldable pub update_post : String → ℕ → PatchPostDto → Query (Unit {0})
  update_post post_uid decrypted_post_id d =
      if is_empty_patch d then pure tt else t.update decrypted_post_id post_uid (patched d)

  unfoldable pub delete_post : String → ℕ → Query (Unit {0})
  delete_post post_uid decrypted_post_id = t.delete decrypted_post_id post_uid
