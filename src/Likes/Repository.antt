-- ===== src/Likes/Repository.antt =====
-- src/blog/repository/post-like.repository.ts: who likes which post. The table is a parameter, with
-- `liked` as what it holds.
use personal_blog_service.Common.{
  ℕ, String, str_eq, ◌==◌, ◌≡◌, Bool, true, false, ◌&&◌, List, [], ◌∷◌, if◌then◌else◌,
}
use personal_blog_service.Exec.{Exec, Result, ok, pure, ◌>>◌}
use personal_blog_service.Utils.CacheIds.{get_post_like_entity_list_cache_id}
use personal_blog_service.Utils.Time.{get_tic_time_hms}

-- POST_LIKE, less the timestamp; both columns are its primary key.
pub record PostLikeEntity : Type 0 where
  pub post_id : ℕ
  pub uid : String

abbrev pub is_same : PostLikeEntity → PostLikeEntity → Bool
is_same a b = a.post_id == b.post_id && str_eq a.uid b.uid

pub record LikeTable : Type 1 where
  pub State : Type 0
  pub liked : State → PostLikeEntity → Bool
  pub exist : PostLikeEntity → State → Result Bool × State
  -- SELECT … WHERE POST_ID = ? with `cache: { id, milliseconds }`
  pub find_cached : String → ℕ → ℕ → State → Result (List PostLikeEntity) × State
  -- SELECT … WHERE POST_ID IN (…)
  pub find_in : List ℕ → State → Result (List PostLikeEntity) × State
  pub insert : PostLikeEntity → State → Result (Unit {0}) × State
  pub delete : PostLikeEntity → State → Result (Unit {0}) × State
  pub remove_cached : String → State → Result (Unit {0}) × State

pub record LikeTableLaws (t : LikeTable) : Type 0 where
  pub exist_ok :
      (e : PostLikeEntity) (s : t.State) (b : Bool) → (t.exist e s).0 ≡ ok b → b ≡ t.liked s e
  pub liked-exist :
      (e : PostLikeEntity) (s : t.State) (x : PostLikeEntity)
      → t.liked (t.exist e s).1 x ≡ t.liked s x
  pub liked-remove_cached :
      (id : String) (s : t.State) (x : PostLikeEntity)
      → t.liked (t.remove_cached id s).1 x ≡ t.liked s x
  pub liked-insert :
      (e : PostLikeEntity) (s : t.State) (x : PostLikeEntity)
      → (t.insert e s).0 ≡ ok tt
      → t.liked (t.insert e s).1 x ≡ (if is_same e x then true else t.liked s x)
  pub liked-delete :
      (e : PostLikeEntity) (s : t.State) (x : PostLikeEntity)
      → (t.delete e s).0 ≡ ok tt
      → t.liked (t.delete e s).1 x ≡ (if is_same e x then false else t.liked s x)

module _ (t : LikeTable) where
  abbrev pub Query : Type 0 → Type 0
  Query = Exec t.State

  unfoldable pub is_exist : PostLikeEntity → Query Bool
  is_exist e = t.exist e

  unfoldable pub find_post_like_entity_list : ℕ → Query (List PostLikeEntity)
  find_post_like_entity_list post_id =
      t.find_cached (get_post_like_entity_list_cache_id post_id) (get_tic_time_hms 24 0 0) post_id

  unfoldable pub find_post_like_entities_by_post_ids : List ℕ → Query (List PostLikeEntity)
  find_post_like_entities_by_post_ids [] = pure []
  find_post_like_entities_by_post_ids (post_id ∷ post_ids) = t.find_in (post_id ∷ post_ids)

  unfoldable pub remove_post_like_entity_list_cache : ℕ → Query (Unit {0})
  remove_post_like_entity_list_cache post_id =
      t.remove_cached (get_post_like_entity_list_cache_id post_id)

  unfoldable pub save_post_like_entity : PostLikeEntity → Query (Unit {0})
  save_post_like_entity e = do remove_post_like_entity_list_cache e.post_id; t.insert e

  unfoldable pub remove_post_like_entity : PostLikeEntity → Query (Unit {0})
  remove_post_like_entity e = do remove_post_like_entity_list_cache e.post_id; t.delete e
