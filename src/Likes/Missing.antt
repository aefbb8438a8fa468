-- ===== src/Likes/Missing.antt =====
-- What a listing makes of a like by a user who has no information.
use personal_blog_service.Common.{
  ℕ, String, str_eq, eq_iff, ◌≡◌, ◌≢◌, refl, sym, ap, ◌∙◌, inl, inr, Bool, true, false, ◌||◌,
  Bool-cases, Option, none, some, List, [], ◌∷◌, ◌++◌, arith,
}
use mathlib.Core.Path.{subst}
use personal_blog_service.Exec.{ok, pure, bind-ok, ok-injective, ◌>>=◌}
use personal_blog_service.Orm.{Table, TableLaws, through}
use personal_blog_service.UserInfo.Repository.{UserInfoEntity, info_key}
use personal_blog_service.UserInfo.Service.{UserInfoDto, get_user_info_by_uid}
use personal_blog_service.UserInfo.Reads.{cached_info, get_user_info_through, returned, same_id}
use personal_blog_service.Utils.CacheIds.{get_user_info_entity_cache_id}
use personal_blog_service.Utils.Time.{get_tic_time_hms}
use personal_blog_service.Likes.Repository.{
  PostLikeEntity, LikeTable, find_post_like_entities_by_post_ids,
}
use personal_blog_service.Likes.Service.{
  PostMap, Blog, set_at, push_to_group, grouped_by_post_id, without_likes, on_likes, on_infos,
  get_nickname_list, set_nicknames, get_post_like_map_by_post_ids,
}

module _ (users : Table UserInfoEntity) (uid : String) where
  -- There is no information on the user, and none is cached.
  abbrev pub IsMissing : users.State → Type 0
  IsMissing s =
      (users.row s uid ≡ none)
      × (◌≡◌ {A = Option UserInfoEntity} (through (cached_info users uid s) none) none)

  module _ (laws : TableLaws users info_key) where
    never_read :
        (s : users.State) (d : UserInfoDto)
        → IsMissing s
        → (get_user_info_by_uid users uid s).0 ≢ ok d
    never_read s d (gone, empty) h =
        let (e, from, _) = get_user_info_through users laws uid s d h in
        let none_some : ◌≡◌ {A = Option UserInfoEntity} none (some e) =
          sym empty ∙ ap (through (cached_info users uid s)) (sym gone) ∙ from in
        ground arith

    queried-IsMissing :
        (other : String) (ms : ℕ) (s : users.State)
        → IsMissing s
        → IsMissing (users.find_one_cached (get_user_info_entity_cache_id other) ms other s).1
    queried-IsMissing other ms s (gone, empty) =
        let id = get_user_info_entity_cache_id in
        let row = laws.row-find_one_cached (id other) ms other s uid ∙ gone in
        elim (laws.cached-find_one_cached (id other) ms other s (id uid)) [
          | inl same ↦ (row, ap (λ c. through c none) same ∙ empty)
          | inr (ids, stored) ↦ (
            row,
            ap (λ c. through c none) stored
                ∙ ap (λ u. through (cached_info users u s) (users.row s u)) (same_id uid other ids)
                ∙ ap (through (cached_info users uid s)) gone
                ∙ empty,
          )
        ]

-- Whether the user is among those who like.
abbrev pub is_liked_by : String → List PostLikeEntity → Bool
is_liked_by uid [] = false
is_liked_by uid (e ∷ es) = str_eq e.uid uid || is_liked_by uid es

abbrev in_groups : String → PostMap (List PostLikeEntity) → Bool
in_groups uid [] = false
in_groups uid ((j, es) ∷ m) = is_liked_by uid es || in_groups uid m

liked_by-append :
    (uid : String) (es : List PostLikeEntity) (e : PostLikeEntity)
    → is_liked_by uid (es ++ (e ∷ [])) ≡ (is_liked_by uid es || str_eq e.uid uid)
liked_by-append uid [] e = ground arith
liked_by-append uid (x ∷ es) e = ground (arith, liked_by-append uid es e)

in_groups-push :
    (uid : String) (e : PostLikeEntity) (m : PostMap (List PostLikeEntity))
    → in_groups uid (push_to_group e m) ≡ (str_eq e.uid uid || in_groups uid m)
unfolding push_to_group
in_groups-push uid e [] = ground arith
in_groups-push uid e ((j, es) ∷ m) =
    ground (arith, in_groups-push uid e m, liked_by-append uid es e)

in_groups-grouped :
    (uid : String) (es : List PostLikeEntity) (m : PostMap (List PostLikeEntity))
    → in_groups uid (grouped_by_post_id es m) ≡ (is_liked_by uid es || in_groups uid m)
unfolding grouped_by_post_id
in_groups-grouped uid [] m = refl
in_groups-grouped uid (e ∷ es) m =
    ground (arith, in_groups-grouped uid es (push_to_group e m), in_groups-push uid e m)

module _ (t : LikeTable) (users : Table UserInfoEntity) (laws : TableLaws users info_key)
    (uid : String) where
  read_other :
      (other : String) (s : users.State) (d : UserInfoDto)
      → IsMissing users uid s
      → (get_user_info_by_uid users other s).0 ≡ ok d
      → (str_eq other uid ≡ false) × IsMissing users uid (get_user_info_by_uid users other s).1
  read_other other s d missing h = (
    elim (Bool-cases (str_eq other uid)) [
      | inl e ↦ absurd (
          never_read users uid laws s d missing
            (subst (λ u. (get_user_info_by_uid users u s).0 ≡ ok d) ((eq_iff other uid).0 e) h))
      | inr e ↦ e
    ],
    subst (IsMissing users uid) (sym (returned users laws other s d h))
        (queried-IsMissing users uid laws other (get_tic_time_hms 24 0 0) s missing),
  )

  get_nickname_list-IsMissing :
      (es : List PostLikeEntity) (b : Blog t.State users.State) (l : List String)
      → IsMissing users uid b.infos
      → (get_nickname_list t users es b).0 ≡ ok l
      → (is_liked_by uid es ≡ false) × IsMissing users uid (get_nickname_list t users es b).1.infos
  unfolding get_nickname_list
  get_nickname_list-IsMissing [] b l missing h = (refl, missing)
  get_nickname_list-IsMissing (e ∷ es) b l missing h =
      let read = on_infos t users (get_user_info_by_uid users e.uid) in
      let last = λ (i : UserInfoDto) (l : List String).
        pure {S = Blog t.State users.State} (i.nickname ∷ l) in
      let (info, found, named, after) =
        bind-ok (λ (i : UserInfoDto). get_nickname_list t users es >>= last i) read b l h in
      let (other, missing') = read_other e.uid b.infos info missing found in
      let (names, listed, _, after') =
        bind-ok (last info) (get_nickname_list t users es) (read b).1 l named in
      let (others, missing'') = get_nickname_list-IsMissing es (read b).1 names missing' listed in
      (
        rw (other, others) refl,
        subst (λ x. IsMissing users uid x.infos) (sym (after ∙ after')) missing'',
      )

  set_nicknames-IsMissing :
      (groups : PostMap (List PostLikeEntity)) (m m' : PostMap (List String))
      (b : Blog t.State users.State)
      → IsMissing users uid b.infos
      → (set_nicknames t users groups m b).0 ≡ ok m'
      → in_groups uid groups ≡ false
  unfolding set_nicknames
  set_nicknames-IsMissing [] m m' b missing h = refl
  set_nicknames-IsMissing ((j, es) ∷ groups) m m' b missing h =
      let (l, listed, rest, _) =
        bind-ok (λ (l : List String). set_nicknames t users groups (set_at j l m))
          (get_nickname_list t users es) b m' h in
      let (others, missing') = get_nickname_list-IsMissing es b l missing listed in
      rw
        (
          others,
          set_nicknames-IsMissing groups (set_at j l m) m' (get_nickname_list t users es b).1
              missing' rest,
        )
        refl

  -- When one of the posts is liked by a user without information, the map does not answer.
  pub get_post_like_map-IsMissing :
      (post_ids : List ℕ) (es : List PostLikeEntity) (m : PostMap (List String))
      (b : Blog t.State users.State)
      → IsMissing users uid b.infos
      → (find_post_like_entities_by_post_ids t post_ids b.likes).0 ≡ ok es
      → is_liked_by uid es ≡ true
      → (get_post_like_map_by_post_ids t users post_ids b).0 ≢ ok m
  unfolding get_post_like_map_by_post_ids
  get_post_like_map-IsMissing post_ids es m b missing found likes h =
      let query = on_likes t users (find_post_like_entities_by_post_ids t post_ids) in
      let start = without_likes post_ids [] in
      let (es', found', set, _) =
        bind-ok (λ l. set_nicknames t users (grouped_by_post_id l []) start) query b m h in
      let none_of =
        set_nicknames-IsMissing (grouped_by_post_id es' []) start m (query b).1 missing set in
      let grouped = in_groups-grouped uid es' [] in
      let same : es' ≡ es = ok-injective (sym found' ∙ found) in
      let likes' = ap (is_liked_by uid) same ∙ likes in ground arith
