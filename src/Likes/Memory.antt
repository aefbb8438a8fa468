-- ===== src/Likes/Memory.antt =====
-- The likes in memory, and two users with nicknames: they show that what is asked of the tables can
-- hold, and the tests run on them.
use personal_blog_service.Common.{
  ℕ, ◌==◌, String, str_eq, ◌≡◌, refl, Bool, true, false, ◌&&◌, ◌||◌, Bool-cases, inl, inr, Option,
  none, some, List, [], ◌∷◌, select, All, if◌then◌else◌,
}
use personal_blog_service.Exec.{ok}
use personal_blog_service.Orm.{Table}
use personal_blog_service.Orm.Memory.{table, find_through}
use personal_blog_service.UserInfo.Repository.{UserInfoEntity, info_key}
use personal_blog_service.Likes.Repository.{
  PostLikeEntity, LikeTable, LikeTableLaws, is_same, find_post_like_entities_by_post_ids,
}
use personal_blog_service.Likes.Nicknames.{HasInfo, ReadsInfos}

abbrev pub ann_1 : PostLikeEntity
ann_1 = record { post_id = 1; uid = "ann" }

abbrev pub bob_2 : PostLikeEntity
bob_2 = record { post_id = 2; uid = "bob" }

abbrev pub bob_1 : PostLikeEntity
bob_1 = record { post_id = 1; uid = "bob" }

-- The likes that the lists show.
abbrev pub three_likes : List PostLikeEntity
three_likes = ann_1 ∷ bob_2 ∷ bob_1 ∷ []

abbrev pub is_among : List ℕ → ℕ → Bool
is_among [] k = false
is_among (j ∷ js) k = (j == k) || is_among js k

-- A table that holds a predicate, and shows in its lists those of three likes that it holds.
abbrev pub likes : LikeTable
likes = record {
  State = PostLikeEntity → Bool;
  liked = λ s e. s e;
  exist = λ e s. (ok (s e), s);
  find_cached = λ id ms post_id s. (ok (select (λ e. s e && e.post_id == post_id) three_likes), s);
  find_in = λ post_ids s. (ok (select (λ e. s e && is_among post_ids e.post_id) three_likes), s);
  insert = λ e s. (ok tt, λ x. if is_same e x then true else s x);
  delete = λ e s. (ok tt, λ x. if is_same e x then false else s x);
  remove_cached = λ id s. (ok tt, s);
}

exists :
    (e : PostLikeEntity) (s : likes.State) (b : Bool)
    → (likes.exist e s).0 ≡ ok b
    → b ≡ likes.liked s e
exists e s b h = cc

pub likes_laws : LikeTableLaws likes
likes_laws = record {
  exist_ok = exists;
  liked-exist = λ e s x. refl;
  liked-remove_cached = λ id s x. refl;
  liked-insert = λ e s x h. refl;
  liked-delete = λ e s x h. refl;
}

-- The user information of ann and of bob, and of nobody else.
abbrev pub users : Table UserInfoEntity
users = table info_key

abbrev pub ann_and_bob : users.State
ann_and_bob = record {
  rows = λ uid.
      if str_eq uid "ann"
      then some (record { uid = "ann"; nickname = "Ann"; introduce = "" })
      else if str_eq uid "bob"
      then some (record { uid = "bob"; nickname = "Bob"; introduce = "" })
      else none;
  results = λ id. none;
}

through_answers :
    (id k : String) (s : users.State) (held : Option (Option UserInfoEntity))
    → (r : Option UserInfoEntity) × ((find_through info_key id k s held).0 ≡ ok r)
through_answers id k s none = (s.rows k, refl)
through_answers id k s (some held) = (held, refl)

pub reads : ReadsInfos users
reads id ms k s = through_answers id k s (s.results id)

All-select :
    (P : PostLikeEntity → Type 0) (p : PostLikeEntity → Bool) (es : List PostLikeEntity)
    → All P es
    → All P (select p es)
All-select P p [] h = tt
All-select P p (e ∷ es) (h, hs) = elim (Bool-cases (p e)) [
  | inl held ↦ rw held (h, All-select P p es hs)
  | inr other ↦ rw other (All-select P p es hs)
]

likers : All (HasInfo users ann_and_bob) three_likes
likers = ((_, refl), ((_, refl), ((_, refl), tt)))

-- The query of the likes is answered, and shows likes of ann and of bob only.
pub finds_likes :
    (post_ids : List ℕ) (s : likes.State)
    → (es : List PostLikeEntity) × ((find_post_like_entities_by_post_ids likes post_ids s).0
        ≡ ok es)
      × All (HasInfo users ann_and_bob) es
unfolding find_post_like_entities_by_post_ids
finds_likes [] s = ([], refl, tt)
finds_likes (k ∷ ks) s =
    (_, refl, All-select _ (λ e. s e && is_among (k ∷ ks) e.post_id) three_likes likers)
