-- ===== src/App/Owners.antt =====
-- Whose posts, likes and information a request can change, from its headers to the tables.
use personal_blog_service.Common.{
  String, ◌≡◌, ap, ◌∙◌, ◌⊎◌, inl, inr, true, Option, some, List, select,
}
use mathlib.Core.Path.{subst}
use personal_blog_service.Exec.{ok}
use personal_blog_service.Orm.{Table, TableLaws}
use personal_blog_service.UserInfo.Repository.{UserInfoEntity, info_key}
use personal_blog_service.Likes.Repository.{PostLikeEntity, LikeTable, LikeTableLaws}
use personal_blog_service.Posts.Table.{PostEntity, PostTable, PostTableLaws}
use personal_blog_service.Posts.Service as Posts
use personal_blog_service.Posts.Writes.{is_not_by}
use personal_blog_service.Auth.Platform.{Platform}
use personal_blog_service.Auth.Guard.Entry.{Entered}
use personal_blog_service.Controllers.{Pipes}
use personal_blog_service.Controllers.Callers.{PostRequest, serve, serve-caller}
use personal_blog_service.Controllers.OwnLikes.{LikeRequest, serve_like, serve_like-liked}
use personal_blog_service.Controllers.OwnInfo.{InfoRequest, serve_info, serve_info-row}
use personal_blog_service.App.{Framework, Incoming, State, handle}
use personal_blog_service.App.Entry.{handle-Answered}

module _ (f : Framework) (p : Platform) where
  -- The guard has let the request in, and for whom.
  abbrev IsEntered : {Tables : Type 0} → Incoming → State f p Tables → Option String → Type 0
  IsEntered i s = Entered p i.route (record { request = i.credentials; store = s.store }) (ok true)

  abbrev pub IsFor : {Tables : Type 0} → Incoming → State f p Tables → String → Type 0
  IsFor i s uid = IsEntered i s (some uid)

  module _ (pipes : Pipes) (t : PostTable) (likes : LikeTable) (users : Table UserInfoEntity) where
    abbrev posts_of : State f p (Posts.State t likes users) → List PostEntity
    posts_of s = t.posts s.world.app.posts

    -- A request to a route that writes posts and is answered with success leaves all posts as they
    -- were, or it came with the verified refresh token that the session of some user stores and with a
    -- verified access token, whomever that one names, and the role of the user is one that the route
    -- allows; then the posts of all others are as they were, whatever the request brought and whatever
    -- Redis and the throttler answered.
    pub handle-Entered :
        (laws : PostTableLaws t) (i : Incoming) (w : PostRequest)
        (s : State f p (Posts.State t likes users)) (body : Option f.Body)
        → let method = λ (caller : Option String). serve pipes t likes users caller w in
          let s' = (handle f p (Posts.State t likes users) i method s).1 in
          (handle f p (Posts.State t likes users) i method s).0 ≡ ok body
          → (posts_of s' ≡ posts_of s)
            ⊎ (uid : String) × IsFor i s uid
              × (select (is_not_by uid) (posts_of s') ≡ select (is_not_by uid) (posts_of s))
    handle-Entered laws i w s body h =
        let method = λ (caller : Option String). serve pipes t likes users caller w in
        elim (handle-Answered f p (Posts.State t likes users) i method s body h) [
          | inl kept ↦ inl (ap (λ q. t.posts q.posts) kept)
          | inr (caller, entered, (a, done, after)) ↦
              let (uid, named, others) =
                serve-caller pipes t likes users laws caller w s.world.app a done in
              inr (
                uid,
                subst (IsEntered i s) named entered,
                ap (λ q. select (is_not_by uid) (t.posts q.posts)) after ∙ others,
              )
        ]

  -- A request to a route that writes likes and is answered with success leaves a like as it was, or it
  -- came with the verified refresh token that the session of the user whose like it is stores and with
  -- a verified access token, whomever that one names, and the role of this user is one that the route
  -- allows.
  pub handle-likes :
      (pipes : Pipes) (t : LikeTable) (laws : LikeTableLaws t) (i : Incoming) (r : LikeRequest)
      (s : State f p t.State) (body : Option f.Body) (x : PostLikeEntity)
      → (handle f p t.State i (serve_like pipes t r) s).0 ≡ ok body
      → let s' = (handle f p t.State i (serve_like pipes t r) s).1 in
        (t.liked s'.world.app x ≡ t.liked s.world.app x) ⊎ IsFor i s x.uid
  handle-likes pipes t laws i r s body x h =
      elim (handle-Answered f p t.State i (serve_like pipes t r) s body h) [
        | inl kept ↦ inl (ap (λ q. t.liked q x) kept)
        | inr (caller, entered, (a, done, after)) ↦
            elim (serve_like-liked pipes t laws r caller s.world.app a x done) [
              | inl same ↦ inl (ap (λ q. t.liked q x) after ∙ same)
              | inr named ↦ inr (subst (IsEntered i s) named entered)
            ]
      ]

  -- A request to a route that writes user information and is answered with success leaves the
  -- information of a user as it was, or it came with the verified refresh token that the session of
  -- this user stores and with a verified access token, whomever that one names, and the role of this
  -- user is one that the route allows.
  pub handle-infos :
      (t : Table UserInfoEntity) (laws : TableLaws t info_key) (i : Incoming) (r : InfoRequest)
      (s : State f p t.State) (body : Option f.Body) (uid : String)
      → (handle f p t.State i (serve_info t r) s).0 ≡ ok body
      → let s' = (handle f p t.State i (serve_info t r) s).1 in
        (t.row s'.world.app uid ≡ t.row s.world.app uid) ⊎ IsFor i s uid
  handle-infos t laws i r s body uid h =
      elim (handle-Answered f p t.State i (serve_info t r) s body h) [
        | inl kept ↦ inl (ap (λ q. t.row q uid) kept)
        | inr (caller, entered, (a, done, after)) ↦
            elim (serve_info-row t laws r caller s.world.app a uid done) [
              | inl same ↦ inl (ap (λ q. t.row q uid) after ∙ same)
              | inr named ↦ inr (subst (IsEntered i s) named entered)
            ]
      ]
