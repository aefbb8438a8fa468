-- ===== src/Likes/Once.antt =====
-- A user likes a post once: what adding and removing a like does to the table, and how the likes
-- are grouped.
use personal_blog_service.Common.{
  ℕ, eq_iff, eq_refl, ◌==◌, ◌≡◌, refl, sym, ap, ◌∙◌, ◌≢◌, Bool, true, false, List, [], ◌∷◌, ◌++◌,
  select, arith, if◌then◌else◌,
}
use mathlib.Core.List.{append-nil, append_assoc}
use personal_blog_service.Failure.Exceptions.{Thrown, post_like_already_exists, post_like_not_found}
use personal_blog_service.Exec.{Result, ok, throw, raise, continue, continue-ok}
use personal_blog_service.Utils.CacheIds.{get_post_like_entity_list_cache_id}
use personal_blog_service.Likes.Repository.{
  PostLikeEntity, LikeTable, LikeTableLaws, Query, is_same, is_exist, save_post_like_entity,
  remove_post_like_entity, remove_post_like_entity_list_cache,
}
use personal_blog_service.Likes.Service.{
  PostLikeDto, to_post_like_entity, add_post_like_user, remove_post_like_user, PostMap,
  push_to_group, grouped_by_post_id,
}

is_same_refl : (e : PostLikeEntity) → is_same e e ≡ true
is_same_refl e = ground (arith, eq_refl e.uid)

liked_same : (f : PostLikeEntity → Bool) (e x : PostLikeEntity) → is_same e x ≡ true → f e ≡ f x
liked_same f e x h =
    let p : e.post_id ≡ x.post_id = ground arith in
    let q : e.uid ≡ x.uid = ground (arith, eq_iff e.uid x.uid) in
    λ i. f (record { post_id = p i; uid = q i })

module _ (t : LikeTable) (laws : LikeTableLaws t) where
  -- A test for existence, and what is done on either answer.
  tested :
      (r : Result Bool) (s : t.State) (there missing : Query t (Unit {0}))
      → (continue (λ b. if b then there else missing) r s).0 ≡ ok tt
      → (b : Bool) × (r ≡ ok b)
        × (((if b then there else missing) s).0 ≡ ok tt)
        × ((continue (λ b. if b then there else missing) r s).1
            ≡ ((if b then there else missing) s).1)
  tested (ok b) s there missing h = (b, refl, h, refl)
  tested (throw _) s there missing h = ground arith

  refusing : (err : Thrown) (s : t.State) → (raise {S = t.State} {A = Unit {0}} err s).0 ≢ ok tt
  refusing err s h = ground arith

  saved :
      (e : PostLikeEntity) (s : t.State) (x : PostLikeEntity)
      → (save_post_like_entity t e s).0 ≡ ok tt
      → t.liked (save_post_like_entity t e s).1 x ≡ (if is_same e x then true else t.liked s x)
  unfolding save_post_like_entity remove_post_like_entity_list_cache
  saved e s x h =
      let id = get_post_like_entity_list_cache_id e.post_id in
      let (r, u) = t.remove_cached id s in
      let (_, _, done, same) = continue-ok (λ _. t.insert e) r u tt h in
      rw (same, laws.liked-insert e u x done, laws.liked-remove_cached id s x) refl

  removed :
      (e : PostLikeEntity) (s : t.State) (x : PostLikeEntity)
      → (remove_post_like_entity t e s).0 ≡ ok tt
      → t.liked (remove_post_like_entity t e s).1 x ≡ (if is_same e x then false else t.liked s x)
  unfolding remove_post_like_entity remove_post_like_entity_list_cache
  removed e s x h =
      let id = get_post_like_entity_list_cache_id e.post_id in
      let (r, u) = t.remove_cached id s in
      let (_, _, done, same) = continue-ok (λ _. t.delete e) r u tt h in
      rw (same, laws.liked-delete e u x done, laws.liked-remove_cached id s x) refl

  added :
      (e : PostLikeEntity) (s u : t.State) (x : PostLikeEntity) (b : Bool)
      → b ≡ t.liked s e
      → t.liked u x ≡ t.liked s x
      → let write = if b then raise post_like_already_exists else save_post_like_entity t e in
        (write u).0 ≡ ok tt
        → (t.liked s e ≡ false)
          × (t.liked (write u).1 x ≡ (if is_same e x then true else t.liked s x))
  added e s u x true was kept h = absurd (refusing _ u h)
  added e s u x false was kept h =
      (sym was, saved e u x h ∙ ap (λ l. if is_same e x then true else l) kept)

  unliked :
      (e : PostLikeEntity) (s u : t.State) (x : PostLikeEntity) (b : Bool)
      → b ≡ t.liked s e
      → t.liked u x ≡ t.liked s x
      → let write = if b then remove_post_like_entity t e else raise post_like_not_found in
        (write u).0 ≡ ok tt
        → (t.liked s e ≡ true)
          × (t.liked (write u).1 x ≡ (if is_same e x then false else t.liked s x))
  unliked e s u x true was kept h =
      (sym was, removed e u x h ∙ ap (λ l. if is_same e x then false else l) kept)
  unliked e s u x false was kept h = absurd (refusing _ u h)

  -- A like is added only if it is not there, and then it is there and no other like has changed.
  pub liked-add :
      (d : PostLikeDto) (s : t.State) (x : PostLikeEntity)
      → (add_post_like_user t d s).0 ≡ ok tt
      → (t.liked s (to_post_like_entity d) ≡ false)
        × (t.liked (add_post_like_user t d s).1 x
            ≡ (if is_same (to_post_like_entity d) x then true else t.liked s x))
  unfolding add_post_like_user is_exist
  liked-add d s x h =
      let e = to_post_like_entity d in
      let (r, u) = t.exist e s in
      let (b, there, done, same) =
        tested r u (raise post_like_already_exists) (save_post_like_entity t e) h in
      rw same (added e s u x b (laws.exist_ok e s b there) (laws.liked-exist e s x) done)

  -- A like is removed only if it is there, and then it is gone and no other like has changed.
  pub liked-remove :
      (d : PostLikeDto) (s : t.State) (x : PostLikeEntity)
      → (remove_post_like_user t d s).0 ≡ ok tt
      → (t.liked s (to_post_like_entity d) ≡ true)
        × (t.liked (remove_post_like_user t d s).1 x
            ≡ (if is_same (to_post_like_entity d) x then false else t.liked s x))
  unfolding remove_post_like_user is_exist
  liked-remove d s x h =
      let e = to_post_like_entity d in
      let (r, u) = t.exist e s in
      let (b, there, done, same) =
        tested r u (remove_post_like_entity t e) (raise post_like_not_found) h in
      rw same (unliked e s u x b (laws.exist_ok e s b there) (laws.liked-exist e s x) done)

  undone :
      (e x : PostLikeEntity) (s u v : t.State)
      → t.liked s e ≡ false
      → t.liked u x ≡ (if is_same e x then true else t.liked s x)
      → t.liked v x ≡ (if is_same e x then false else t.liked u x)
      → (b : Bool) → is_same e x ≡ b
      → t.liked v x ≡ t.liked s x
  undone e x s u v free a r true same = r ∙ rw same (sym free ∙ liked_same (t.liked s) e x same)
  undone e x s u v free a r false same = r ∙ rw same (a ∙ rw same refl)

  -- Adding a like and removing it again leaves the likes as they were.
  pub remove-add_post_like_user :
      (d : PostLikeDto) (s : t.State) (x : PostLikeEntity)
      → (add_post_like_user t d s).0 ≡ ok tt
      → (remove_post_like_user t d (add_post_like_user t d s).1).0 ≡ ok tt
      → t.liked (remove_post_like_user t d (add_post_like_user t d s).1).1 x ≡ t.liked s x
  remove-add_post_like_user d s x h h' =
      let u = (add_post_like_user t d s).1 in
      let (free, a) = liked-add d s x h in
      let (_, r) = liked-remove d u x h' in
      undone (to_post_like_entity d) x s u (remove_post_like_user t d u).1 free a r _ refl

-- The likes of a post in a map of groups.
abbrev pub group_of : ℕ → PostMap (List PostLikeEntity) → List PostLikeEntity
group_of k [] = []
group_of k ((j, es) ∷ m) = if j == k then es else group_of k m

abbrev pub is_of_post : ℕ → PostLikeEntity → Bool
is_of_post k e = e.post_id == k

one_or_none :
    (b : Bool) (e : PostLikeEntity) (es : List PostLikeEntity)
    → (if b then e ∷ [] else []) ++ es ≡ (if b then e ∷ es else es)
one_or_none true e es = refl
one_or_none false e es = refl

group_of-push :
    (k : ℕ) (e : PostLikeEntity) (m : PostMap (List PostLikeEntity))
    → group_of k (push_to_group e m) ≡ group_of k m ++ (if is_of_post k e then e ∷ [] else [])
unfolding push_to_group
group_of-push k e [] = refl
group_of-push k e ((j, es) ∷ m) =
    let ih = group_of-push k e m in ground (arith, ih, append-nil es, append-nil (group_of k m))

-- Grouping a list of likes adds to the group of each post the likes of that post, in the order of
-- the list.
pub group_of-grouped_by_post_id :
    (k : ℕ) (es : List PostLikeEntity) (m : PostMap (List PostLikeEntity))
    → group_of k (grouped_by_post_id es m) ≡ group_of k m ++ select (is_of_post k) es
unfolding grouped_by_post_id
group_of-grouped_by_post_id k [] m = sym (append-nil (group_of k m))
group_of-grouped_by_post_id k (e ∷ es) m =
    group_of-grouped_by_post_id k es (push_to_group e m)
    ∙ rw (group_of-push k e m) (
        append_assoc (group_of k m) (if is_of_post k e then e ∷ [] else [])
          (select (is_of_post k) es)
        ∙ ap (λ l. group_of k m ++ l) (one_or_none (is_of_post k e) e (select (is_of_post k) es)))
