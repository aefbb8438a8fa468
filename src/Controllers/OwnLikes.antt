-- ===== src/Controllers/OwnLikes.antt =====
-- Whose likes the routes of the likes change.
use personal_blog_service.Common.{
  String, eq_iff, some, ◌≡◌, refl, ap, ◌∙◌, ◌⊎◌, inl, inr, Bool, true, false, Bool-cases, Option,
  arith, if◌then◌else◌,
}
use personal_blog_service.Exec.{ok, pure, lift, continue-ok, bind-ok, ◌>>=◌, ◌>>◌}
use personal_blog_service.Likes.Repository.{
  PostLikeEntity, LikeTable, LikeTableLaws, Query, is_same,
}
use personal_blog_service.Likes.Service.{
  PostLikeDto, to_post_like_entity, add_post_like_user, remove_post_like_user,
}
use personal_blog_service.Likes.Once.{liked-add, liked-remove}
use personal_blog_service.Controllers.{
  Pipes, SuccessResponse, success, authenticated_user_validation, post_id_of,
}
use personal_blog_service.Controllers.Named.{caller_of}
use personal_blog_service.Controllers.Likes.{add_like, delete_like}

-- The routes that write likes, with their paths.
pub data LikeRequest : Type 0 where
  adds removes : String → LikeRequest

module _ (pipes : Pipes) (t : LikeTable) where
  abbrev pub serve_like : LikeRequest → Option String → Query t SuccessResponse
  serve_like (adds post_id) caller = add_like pipes t caller post_id
  serve_like (removes post_id) caller = delete_like pipes t caller post_id

  -- A like other than `e` is as it was when the outcome depends on `is_same e`.
  other_kept :
      (caller : Option String) (e x : PostLikeEntity) (new was now : Bool)
      → caller ≡ some e.uid
      → now ≡ (if is_same e x then new else was)
      → (now ≡ was) ⊎ (caller ≡ some x.uid)
  other_kept caller e x new was now named h = elim (Bool-cases (is_same e x)) [
    | inl same ↦
        let owner : e.uid ≡ x.uid = ground (arith, eq_iff e.uid x.uid) in
        inr (named ∙ ap some owner)
    | inr other ↦ inl (h ∙ rw other refl)
  ]

  -- What a route does to the like of its caller.
  abbrev write : LikeRequest → PostLikeDto → Query t (Unit {0})
  write (adds _) d = add_post_like_user t d
  write (removes _) d = remove_post_like_user t d

  abbrev path_of : LikeRequest → String
  path_of (adds post_id) = post_id
  path_of (removes post_id) = post_id

  liked-write :
      (laws : LikeTableLaws t) (r : LikeRequest) (caller : Option String) (d : PostLikeDto)
      (s : t.State) (x : PostLikeEntity)
      → caller ≡ some d.uid
      → (write r d s).0 ≡ ok tt
      → (t.liked (write r d s).1 x ≡ t.liked s x) ⊎ (caller ≡ some x.uid)
  liked-write laws (adds _) caller d s x named done =
      other_kept caller (to_post_like_entity d) x true (t.liked s x) _ named
        (liked-add t laws d s x done).1
  liked-write laws (removes _) caller d s x named done =
      other_kept caller (to_post_like_entity d) x false (t.liked s x) _ named
        (liked-remove t laws d s x done).1

  -- A route, written out once for both.
  abbrev route : LikeRequest → Option String → Query t SuccessResponse
  route r caller = do
    uid ← lift (authenticated_user_validation caller)
    id ← lift (post_id_of pipes (path_of r))
    write r (record { post_id = id; uid = uid })
    pure success

  route-liked :
      (laws : LikeTableLaws t) (r : LikeRequest) (caller : Option String) (s : t.State)
      (a : SuccessResponse) (x : PostLikeEntity)
      → (route r caller s).0 ≡ ok a
      → (t.liked (route r caller s).1 x ≡ t.liked s x) ⊎ (caller ≡ some x.uid)
  route-liked laws r caller s a x h =
      let (uid, given, h', same) = continue-ok _ (authenticated_user_validation caller) s a h in
      let (id, _, h'', same') = continue-ok _ (post_id_of pipes (path_of r)) s a h' in
      let d : PostLikeDto = record { post_id = id; uid = uid } in
      let (_, done, _, same'') = bind-ok (λ _. pure success) (write r d) s a h'' in
      rw (same ∙ same' ∙ same'') (liked-write laws r caller d s x (caller_of caller uid given) done)

  -- A route that answers with success has changed no like but one of the user in the trusted header.
  pub serve_like-liked :
      (laws : LikeTableLaws t) (r : LikeRequest) (caller : Option String) (s : t.State)
      (a : SuccessResponse) (x : PostLikeEntity)
      → (serve_like r caller s).0 ≡ ok a
      → (t.liked (serve_like r caller s).1 x ≡ t.liked s x) ⊎ (caller ≡ some x.uid)
  unfolding add_like delete_like
  serve_like-liked laws (adds post_id) caller s a x h =
      route-liked laws (adds post_id) caller s a x h
  serve_like-liked laws (removes post_id) caller s a x h =
      route-liked laws (removes post_id) caller s a x h
