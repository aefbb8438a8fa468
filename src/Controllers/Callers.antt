-- ===== src/Controllers/Callers.antt =====
-- What the routes of the posts do for whom.
use personal_blog_service.Common.{ℕ, String, ◌≡◌, refl, ap, ◌∙◌, Option, none, some, select, arith}
use personal_blog_service.Exec.{Result, ok, throw, pure, lift, bind-ok, ◌>>=◌, ◌>>◌}
use personal_blog_service.Orm.{Table}
use personal_blog_service.UserInfo.Repository.{UserInfoEntity}
use personal_blog_service.Likes.Repository.{LikeTable}
use personal_blog_service.Posts.Table.{PostTable, PostTableLaws}
use personal_blog_service.Posts.Repository.{CreatePostDto, PatchPostDto}
use personal_blog_service.Posts.Service.{Action, State}
use personal_blog_service.Posts.Writes.{Write, is_not_by, perform, others-perform}
use personal_blog_service.Controllers.{
  Pipes, SuccessResponse, success, no_caller, authenticated_user_validation, post_id_of,
}
use personal_blog_service.Controllers.Named.{caller_of}
use personal_blog_service.Controllers.Posts.{create_post, patch_post, delete_post}

-- The routes that write posts, with their paths and bodies.
pub data PostRequest : Type 0 where
  creates : CreatePostDto → PostRequest
  patches : String → PatchPostDto → PostRequest
  deletes : String → PostRequest

module _ (pipes : Pipes) (t : PostTable) (likes : LikeTable) (users : Table UserInfoEntity) where
  abbrev pub serve : Option String → PostRequest → Action t likes users SuccessResponse
  serve caller (creates d) = create_post pipes t likes users caller d
  serve caller (patches post_id d) = patch_post pipes t likes users caller post_id d
  serve caller (deletes post_id) = delete_post pipes t likes users caller post_id

  -- Without a user in the trusted header every one of these routes answers AUTH_UNAUTHORIZED and
  -- changes nothing.
  pub serve-no_caller :
      (w : PostRequest) (s : State t likes users) → serve none w s ≡ (throw no_caller, s)
  unfolding create_post patch_post delete_post authenticated_user_validation
  serve-no_caller (creates d) s = refl
  serve-no_caller (patches post_id d) s = refl
  serve-no_caller (deletes post_id) s = refl

  -- What a route that answers with success has done: one write for its caller.
  abbrev Done : Option String → State t likes users → State t likes users → Type 0
  Done caller s s' =
      (uid : String) × (w : Write) × (caller ≡ some uid)
      × ((perform t likes users uid w s).0 ≡ ok tt)
      × (s' ≡ (perform t likes users uid w s).1)

  done :
      (caller : Option String) (s : State t likes users) (uid : String) (w : Write)
      (a : SuccessResponse)
      → authenticated_user_validation caller ≡ ok uid
      → ((perform t likes users uid w >> pure success) s).0 ≡ ok a
      → Done caller s ((perform t likes users uid w >> pure success) s).1
  done caller s uid w a given h =
      let (_, e, _, same) = bind-ok (λ _. pure success) (perform t likes users uid w) s a h in
      (uid, w, caller_of caller uid given, e, same)

  -- A value that was validated before the rest.
  validated :
      {A : Type 0} (caller : Option String) (r : Result A)
      (f : A → Action t likes users SuccessResponse) (s : State t likes users) (a : SuccessResponse)
      → ((lift r >>= f) s).0 ≡ ok a
      → ((x : A) → r ≡ ok x → (f x s).0 ≡ ok a → Done caller s (f x s).1)
      → Done caller s ((lift r >>= f) s).1
  validated caller (ok x) f s a h k = k x refl h
  validated caller (throw _) f s a h k = absurd (ground arith)

  -- A route with an id in its path.
  at_post :
      (caller : Option String) (post_id : String) (write : ℕ → Write) (s : State t likes users)
      (a : SuccessResponse)
      → let route = λ (uid : String). lift (post_id_of pipes post_id) >>= λ id.
          perform t likes users uid (write id) >> pure success in
        ((lift (authenticated_user_validation caller) >>= route) s).0 ≡ ok a
        → Done caller s ((lift (authenticated_user_validation caller) >>= route) s).1
  at_post caller post_id write s a h =
      validated caller (authenticated_user_validation caller) _ s a h (λ uid given h'.
        validated caller (post_id_of pipes post_id) _ s a h'
          (λ id read h''. done caller s uid (write id) a given h''))

  serve-Done :
      (caller : Option String) (w : PostRequest) (s : State t likes users) (a : SuccessResponse)
      → (serve caller w s).0 ≡ ok a
      → Done caller s (serve caller w s).1
  unfolding create_post patch_post delete_post
  serve-Done caller (creates d) s a h =
      validated caller (authenticated_user_validation caller) _ s a h
        (λ uid given h'. done caller s uid (Write.creates d) a given h')
  serve-Done caller (patches post_id d) s a h =
      at_post caller post_id (λ id. Write.patches id d) s a h
  serve-Done caller (deletes post_id) s a h = at_post caller post_id Write.deletes s a h

  -- What answers with success has named its caller in the trusted header, and the posts of all others
  -- are as they were.
  pub serve-caller :
      (laws : PostTableLaws t) (caller : Option String) (w : PostRequest) (s : State t likes users)
      (a : SuccessResponse)
      → (serve caller w s).0 ≡ ok a
      → (uid : String) × (caller ≡ some uid)
        × (select (is_not_by uid) (t.posts (serve caller w s).1.posts)
            ≡ select (is_not_by uid) (t.posts s.posts))
  serve-caller laws caller w s a h =
      let (uid, wr, named, performed, same) = serve-Done caller w s a h in
      (
        uid,
        named,
        ap (λ s'. select (is_not_by uid) (t.posts s'.posts)) same
            ∙ others-perform t likes users laws uid wr s performed,
      )
