-- ===== src/Controllers/Posts.antt =====
-- src/blog/controller/post.controller.ts. `caller` is the trusted header of the request.
use personal_blog_service.Common.{ℕ, String, Option}
use personal_blog_service.Exec.{pure, lift, ◌>>=◌, ◌>>◌}
use personal_blog_service.Orm.{Table}
use personal_blog_service.UserInfo.Repository.{UserInfoEntity}
use personal_blog_service.Likes.Repository.{LikeTable}
use personal_blog_service.Utils.Pagination.{PaginationDto}
use personal_blog_service.Posts.Table.{PostTable}
use personal_blog_service.Posts.Repository.{CreatePostDto, PatchPostDto}
use personal_blog_service.Posts.Service
use personal_blog_service.Posts.Service.{
  PostDto, Action, get_post_page_list_by_page, get_post_page_list_by_post_uid, get_post_by_post_id,
}
use personal_blog_service.Controllers.{
  Pipes, SuccessResponse, success, authenticated_user_validation, post_id_of, post_uid_of,
}

module _ (pipes : Pipes) (t : PostTable) (likes : LikeTable) (users : Table UserInfoEntity) where
  unfoldable pub get_all_posts : ℕ → Action t likes users (PaginationDto PostDto)
  get_all_posts page = get_post_page_list_by_page t likes users page

  unfoldable pub get_user_posts : String → ℕ → Action t likes users (PaginationDto PostDto)
  get_user_posts post_uid page = do
    uid ← lift (post_uid_of pipes post_uid)
    get_post_page_list_by_post_uid t likes users uid page

  unfoldable pub get_post : String → Action t likes users PostDto
  get_post post_id = do id ← lift (post_id_of pipes post_id); get_post_by_post_id t likes users id

  unfoldable pub create_post : Option String → CreatePostDto → Action t likes users SuccessResponse
  create_post caller d = do
    auth_uid ← lift (authenticated_user_validation caller)
    Service.create_post t likes users auth_uid d
    pure success

  unfoldable pub patch_post :
      Option String → String → PatchPostDto → Action t likes users SuccessResponse
  patch_post caller post_id d = do
    auth_uid ← lift (authenticated_user_validation caller)
    id ← lift (post_id_of pipes post_id)
    Service.update_post t likes users auth_uid id d
    pure success

  unfoldable pub delete_post : Option String → String → Action t likes users SuccessResponse
  delete_post caller post_id = do
    auth_uid ← lift (authenticated_user_validation caller)
    id ← lift (post_id_of pipes post_id)
    Service.delete_post t likes users auth_uid id
    pure success
