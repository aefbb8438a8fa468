-- ===== src/Likes/Groups.antt =====
-- The groups of likes by their posts: no post has two, and they hold the likes of the query only.
use personal_blog_service.Common.{
  ℕ, ◌==◌, ◌≡◌, refl, ◌∙◌, Bool, false, ◌||◌, List, [], ◌∷◌, ◌++◌, arith, All, Bool-cases, inl, inr,
}
use personal_blog_service.Likes.Repository.{PostLikeEntity}
use personal_blog_service.Likes.Service.{PostMap, push_to_group, grouped_by_post_id}
use personal_blog_service.Likes.Once.{group_of}

-- The keys of a map of groups.
abbrev pub has_key : ℕ → PostMap (List PostLikeEntity) → Bool
has_key k [] = false
has_key k ((j, es) ∷ m) = (j == k) || has_key k m

-- No key stands twice.
abbrev pub IsDistinct : PostMap (List PostLikeEntity) → Type 0
IsDistinct [] = Unit
IsDistinct ((j, es) ∷ m) = (has_key j m ≡ false) × IsDistinct m

has_key-push :
    (k : ℕ) (e : PostLikeEntity) (m : PostMap (List PostLikeEntity))
    → has_key k (push_to_group e m) ≡ ((e.post_id == k) || has_key k m)
unfolding push_to_group
has_key-push k e [] = refl
has_key-push k e ((j, es) ∷ m) = ground (arith, has_key-push k e m)

push-IsDistinct :
    (e : PostLikeEntity) (m : PostMap (List PostLikeEntity))
    → IsDistinct m
    → IsDistinct (push_to_group e m)
unfolding push_to_group
push-IsDistinct e [] h = (refl, tt)
push-IsDistinct e ((j, es) ∷ m) (new, h) = elim (Bool-cases (j == e.post_id)) [
  | inl same ↦ rw same (new, h)
  | inr other ↦ rw other (has_key-push j e m ∙ ground arith, push-IsDistinct e m h)
]

pub grouped-IsDistinct :
    (es : List PostLikeEntity) (m : PostMap (List PostLikeEntity))
    → IsDistinct m
    → IsDistinct (grouped_by_post_id es m)
unfolding grouped_by_post_id
grouped-IsDistinct [] m h = h
grouped-IsDistinct (e ∷ es) m h = grouped-IsDistinct es (push_to_group e m) (push-IsDistinct e m h)

pub group_of_missing :
    (k : ℕ) (m : PostMap (List PostLikeEntity)) → has_key k m ≡ false → group_of k m ≡ []
group_of_missing k [] h = refl
group_of_missing k ((j, es) ∷ m) h = ground (arith, group_of_missing k m)

-- All entities of the groups.
abbrev pub AllOf : (PostLikeEntity → Type 0) → PostMap (List PostLikeEntity) → Type 0
AllOf P [] = Unit
AllOf P ((j, es) ∷ m) = All P es × AllOf P m

All-append :
    (P : PostLikeEntity → Type 0) (e : PostLikeEntity) (es : List PostLikeEntity)
    → P e
    → All P es
    → All P (es ++ (e ∷ []))
All-append P e [] h hs = (h, tt)
All-append P e (x ∷ es) h (k, hs) = (k, All-append P e es h hs)

AllOf-push :
    (P : PostLikeEntity → Type 0) (e : PostLikeEntity) (m : PostMap (List PostLikeEntity))
    → P e
    → AllOf P m
    → AllOf P (push_to_group e m)
unfolding push_to_group
AllOf-push P e [] h hs = ((h, tt), tt)
AllOf-push P e ((j, es) ∷ m) h (k, hs) = elim (Bool-cases (j == e.post_id)) [
  | inl same ↦ rw same (All-append P e es h k, hs)
  | inr other ↦ rw other (k, AllOf-push P e m h hs)
]

pub AllOf-grouped :
    (P : PostLikeEntity → Type 0) (es : List PostLikeEntity) (m : PostMap (List PostLikeEntity))
    → All P es
    → AllOf P m
    → AllOf P (grouped_by_post_id es m)
unfolding grouped_by_post_id
AllOf-grouped P [] m h hs = hs
AllOf-grouped P (e ∷ es) m (k, h) hs =
    AllOf-grouped P es (push_to_group e m) h (AllOf-push P e m k hs)
