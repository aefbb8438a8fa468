-- ===== src/Controllers/Likes.antt =====
-- src/blog/controller/post-like.controller.ts.
use personal_blog_service.Common.{String, Option}
use personal_blog_service.Exec.{pure, lift, ◌>>=◌, ◌>>◌}
use personal_blog_service.Likes.Repository.{LikeTable, Query}
use personal_blog_service.Likes.Service.{add_post_like_user, remove_post_like_user}
use personal_blog_service.Controllers.{
  Pipes, SuccessResponse, success, authenticated_user_validation, post_id_of,
}

module _ (pipes : Pipes) (t : LikeTable) where
  unfoldable pub add_like : Option String → String → Query t SuccessResponse
  add_like caller post_id = do
    auth_uid ← lift (authenticated_user_validation caller)
    id ← lift (post_id_of pipes post_id)
    add_post_like_user t (record { post_id = id; uid = auth_uid })
    pure success

  unfoldable pub delete_like : Option String → String → Query t SuccessResponse
  delete_like caller post_id = do
    auth_uid ← lift (authenticated_user_validation caller)
    id ← lift (post_id_of pipes post_id)
    remove_post_like_user t (record { post_id = id; uid = auth_uid })
    pure success
