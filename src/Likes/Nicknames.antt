-- ===== src/Likes/Nicknames.antt =====
-- The map from posts to nicknames holds, for each post, the nicknames of those who like it.
use personal_blog_service.Common.{
  ℕ, String, ◌==◌, ◌≡◌, refl, sym, ap, ◌∙◌, Bool, true, false, ◌||◌, List, [], ◌∷◌, map, select,
  arith, All, Option, none, some, ==_iff, Bool-cases, inl, inr, if◌then◌else◌,
}
use mathlib.Core.Path.{subst}
use personal_blog_service.Exec.{ok, pure, bind-of_ok, ◌>>=◌}
use personal_blog_service.Orm.{Table, TableLaws}
use personal_blog_service.UserInfo.Repository.{UserInfoEntity, info_key}
use personal_blog_service.UserInfo.Service.{UserInfoDto, to_user_info_dto, get_user_info_by_uid}
use personal_blog_service.UserInfo.Reads.{seen, get_user_info_of_seen, seen-read}
use personal_blog_service.Likes.Repository.{
  PostLikeEntity, LikeTable, find_post_like_entities_by_post_ids,
}
use personal_blog_service.Likes.Service.{
  PostMap, Blog, set_at, get_or_empty, grouped_by_post_id, without_likes, on_likes, on_infos,
  get_nickname_list, set_nicknames, get_post_like_map_by_post_ids,
}
use personal_blog_service.Likes.Once.{group_of, is_of_post, group_of-grouped_by_post_id}
use personal_blog_service.Likes.Groups.{
  has_key, IsDistinct, AllOf, grouped-IsDistinct, AllOf-grouped, group_of_missing,
}

get_or_empty-set_at :
    (k j : ℕ) (a : List String) (m : PostMap (List String))
    → get_or_empty k (set_at j a m) ≡ (if j == k then a else get_or_empty k m)
unfolding set_at
get_or_empty-set_at k j a [] = refl
get_or_empty-set_at k j a ((i, b) ∷ m) = ground (arith, get_or_empty-set_at k j a m)

get_or_empty-without_likes :
    (k : ℕ) (ks : List ℕ) (m : PostMap (List String))
    → get_or_empty k m ≡ []
    → get_or_empty k (without_likes ks m) ≡ []
unfolding without_likes
get_or_empty-without_likes k [] m h = h
get_or_empty-without_likes k (j ∷ ks) m h =
    get_or_empty-without_likes k ks (set_at j [] m) (get_or_empty-set_at k j [] m ∙ ground (arith))

-- The nickname in some information.
abbrev nickname_in : Option UserInfoEntity → String
nickname_in none = ""
nickname_in (some e) = e.nickname

-- Every read of user information is answered.
abbrev pub ReadsInfos : Table UserInfoEntity → Type 0
ReadsInfos users =
    (id : String) (ms : ℕ) (uid : String) (s : users.State)
    → (r : Option UserInfoEntity) × ((users.find_one_cached id ms uid s).0 ≡ ok r)

-- A user of whom there is information, and the nickname in it.
module _ (users : Table UserInfoEntity) (infos : users.State) where
  abbrev pub HasInfo : PostLikeEntity → Type 0
  HasInfo like = (e : UserInfoEntity) × (seen users like.uid infos ≡ some e)

  abbrev pub nickname_of : String → String
  nickname_of uid = nickname_in (seen users uid infos)

-- From the state `infos` on, which reads do not change for a reader.
module _ (t : LikeTable) (users : Table UserInfoEntity) (laws : TableLaws users info_key)
    (reads : ReadsInfos users) (infos : users.State) where
  abbrev IsKnown : users.State → Type 0
  IsKnown s = (uid : String) → seen users uid s ≡ seen users uid infos

  named :
      (like : PostLikeEntity) (s : users.State)
      → HasInfo users infos like
      → IsKnown s
      → (info : UserInfoDto) × ((get_user_info_by_uid users like.uid s).0 ≡ ok info)
        × (info.nickname ≡ nickname_of users infos like.uid)
        × IsKnown (get_user_info_by_uid users like.uid s).1
  named like s (e, there) known =
      let (r, answered) = reads _ _ like.uid s in
      let steps =
        get_user_info_of_seen users laws like.uid s e r answered (known like.uid ∙ there) in
      (
        to_user_info_dto e,
        ap (λ x. x.0) steps,
        ap nickname_in (sym there),
        λ uid. ap (λ x. seen users uid x.1) steps ∙ seen-read users laws uid like.uid s ∙ known uid,
      )

  abbrev pub nicknames_of : List PostLikeEntity → List String
  nicknames_of = map (λ e. nickname_of users infos e.uid)

  get_nickname_list_lem :
      (es : List PostLikeEntity) (b : Blog t.State users.State)
      → IsKnown b.infos
      → All (HasInfo users infos) es
      → ((get_nickname_list t users es b).0 ≡ ok (nicknames_of es))
        × IsKnown (get_nickname_list t users es b).1.infos
  unfolding get_nickname_list
  get_nickname_list_lem [] b known has = (refl, known)
  get_nickname_list_lem (e ∷ es) b known (first, has) =
      let (info, found, name, known') = named e b.infos first known in
      let read = on_infos t users (get_user_info_by_uid users e.uid) in
      let rest = λ (i : UserInfoDto). get_nickname_list t users es >>= λ l.
      pure {S = Blog t.State users.State} (i.nickname ∷ l) in
      let last = λ (l : List String). pure {S = Blog t.State users.State} (info.nickname ∷ l) in
      let (names, known'') = get_nickname_list_lem es (read b).1 known' has in
      let steps =
        bind-of_ok rest read b info found
        ∙ bind-of_ok last (get_nickname_list t users es) (read b).1 (nicknames_of es) names in
      (ap (λ x. x.0) steps ∙ rw name refl, subst (λ x. IsKnown x.1.infos) (sym steps) known'')

  -- The loop ends, and has set the nicknames of every group.
  set_nicknames_lem :
      (k : ℕ) (groups : PostMap (List PostLikeEntity)) (m : PostMap (List String))
      (b : Blog t.State users.State)
      → IsKnown b.infos
      → IsDistinct groups
      → AllOf (HasInfo users infos) groups
      → (m' : PostMap (List String)) × ((set_nicknames t users groups m b).0 ≡ ok m')
        × (get_or_empty k m'
            ≡ (if has_key k groups then nicknames_of (group_of k groups) else get_or_empty k m))
  unfolding set_nicknames
  set_nicknames_lem k [] m b known h has = (m, refl, refl)
  set_nicknames_lem k ((j, es) ∷ groups) m b known (new, h) (first, has) =
      let (names, known') = get_nickname_list_lem es b known first in
      let (m', e, same) =
        set_nicknames_lem k groups (set_at j (nicknames_of es) m) (get_nickname_list t users es b).1
          known' h has in
      let rest = λ (l : List String). set_nicknames t users groups (set_at j l m) in
      (
        m',
        ap (λ x. x.0) (bind-of_ok rest (get_nickname_list t users es) b (nicknames_of es) names)
            ∙ e,
        same ∙ kept (j == k) refl,
      )
    where
      kept :
          (here : Bool)
          → (j == k) ≡ here
          → (if has_key k groups
              then nicknames_of (group_of k groups)
              else get_or_empty k (set_at j (nicknames_of es) m))
            ≡ (if here || has_key k groups
                then nicknames_of (if here then es else group_of k groups)
                else get_or_empty k m)
      kept true e =
          let gone : has_key k groups ≡ false =
            ap (λ i. has_key i groups) (sym ((==_iff j k).0 e)) ∙ new in
          rw (gone, get_or_empty-set_at k j (nicknames_of es) m, e) refl
      kept false e = rw (get_or_empty-set_at k j (nicknames_of es) m, e) refl

  -- A post that no group is for has no nicknames.
  either_way :
      (k : ℕ) (groups : PostMap (List PostLikeEntity)) (start : PostMap (List String))
      → get_or_empty k start ≡ []
      → (if has_key k groups then nicknames_of (group_of k groups) else get_or_empty k start)
        ≡ nicknames_of (group_of k groups)
  either_way k groups start h = elim (Bool-cases (has_key k groups)) [
    | inl e ↦ rw e refl
    | inr e ↦ rw (e, h, group_of_missing k groups e) refl
  ]

  -- The map from a state of the user information on.
  map_from :
      (k : ℕ) (post_ids : List ℕ) (b : Blog t.State users.State) (es : List PostLikeEntity)
      → IsKnown b.infos
      → All (HasInfo users infos) es
      → (find_post_like_entities_by_post_ids t post_ids b.likes).0 ≡ ok es
      → (m : PostMap (List String)) × ((get_post_like_map_by_post_ids t users post_ids b).0 ≡ ok m)
        × (get_or_empty k m ≡ nicknames_of (select (is_of_post k) es))
  unfolding get_post_like_map_by_post_ids
  map_from k post_ids b es known has found =
      let groups = grouped_by_post_id es [] in
      let start = without_likes post_ids [] in
      let query = on_likes t users (find_post_like_entities_by_post_ids t post_ids) in
      let rest =
        λ (l : List PostLikeEntity). set_nicknames t users (grouped_by_post_id l []) start in
      let (m, e, same) =
        set_nicknames_lem k groups start (query b).1 known (grouped-IsDistinct es [] tt)
          (AllOf-grouped (HasInfo users infos) es [] has tt) in
      (
        m,
        ap (λ x. x.0) (bind-of_ok rest query b es found) ∙ e,
        same
            ∙ either_way k groups start (get_or_empty-without_likes k post_ids [] refl)
            ∙ ap nicknames_of (group_of-grouped_by_post_id k es []),
      )

module _ (t : LikeTable) (users : Table UserInfoEntity) (laws : TableLaws users info_key)
    (reads : ReadsInfos users) where
  -- When there is information, stored or cached, on every user whose like the query of the likes
  -- finds, and every read of user information is answered, the map answers and holds under each post
  -- the nicknames of those who like it, in the order of the query.
  pub get_post_like_map_lem :
      (k : ℕ) (post_ids : List ℕ) (b : Blog t.State users.State) (es : List PostLikeEntity)
      → (find_post_like_entities_by_post_ids t post_ids b.likes).0 ≡ ok es
      → All (HasInfo users b.infos) es
      → (m : PostMap (List String)) × ((get_post_like_map_by_post_ids t users post_ids b).0 ≡ ok m)
        × (get_or_empty k m
            ≡ map (λ like. nickname_of users b.infos like.uid) (select (is_of_post k) es))
  get_post_like_map_lem k post_ids b es found has =
      map_from t users laws reads b.infos k post_ids b es (λ uid. refl) has found
