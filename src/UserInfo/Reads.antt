-- ===== src/UserInfo/Reads.antt =====
-- What a read of the user information returns, through the cache.
use personal_blog_service.Common.{
  String, ◌≡◌, refl, ◌∙◌, sym, ap, ◌≢◌, inl, inr, Option, none, some, arith,
}
use text.Mathlib.TextLemmas.{append_cancel_left}
use personal_blog_service.Failure.Exceptions.{Thrown, error}
use personal_blog_service.Exec.{Result, ok, throw, pure, raise, lift, continue, caught}
use personal_blog_service.Orm.{Table, TableLaws, through}
use personal_blog_service.UserInfo.Repository.{
  UserInfoEntity, info_key, info_or_fail, info_not_found, remove_user_info_cache,
  find_user_info_entity,
}
use personal_blog_service.UserInfo.Service.{UserInfoDto, to_user_info_dto, get_user_info_by_uid}
use personal_blog_service.Utils.CacheIds.{get_user_info_entity_cache_id}
use personal_blog_service.Utils.Time.{get_tic_time_hms}

-- After a throw no information is returned.
raising :
    {S : Type 0} (e : Thrown) (r : Result (Unit {0})) (s : S) (d : UserInfoDto)
    → (let (q, u) = continue {A = Unit {0}} {B = UserInfoEntity} (λ _. raise e) r s in
        continue (λ a. pure (to_user_info_dto a)) q u).0
      ≢ ok d
raising e (ok _) s d h = ground arith
raising e (throw _) s d h = ground arith

module _ (t : Table UserInfoEntity) (uid : String) where
  abbrev pub cached_info : t.State → Option (Option UserInfoEntity)
  cached_info s = t.cached s (get_user_info_entity_cache_id uid)

  -- The information that a read would find: the cached one, or else that of the row.
  abbrev pub seen : t.State → Option UserInfoEntity
  seen s = through (cached_info s) (t.row s uid)

  -- The query of a read.
  abbrev pub read : t.State → Result (Option UserInfoEntity) × t.State
  read = t.find_one_cached (get_user_info_entity_cache_id uid) (get_tic_time_hms 24 0 0) uid

-- Two users have two cache ids.
pub same_id :
    (uid other : String)
    → get_user_info_entity_cache_id other ≡ get_user_info_entity_cache_id uid
    → other ≡ uid
unfolding get_user_info_entity_cache_id
same_id uid other e = append_cancel_left "UserInfoEntity_" _ _ e

module _ (t : Table UserInfoEntity) (laws : TableLaws t info_key) (uid : String) where
  unfound :
      (err : Thrown) (s : t.State) (d : UserInfoDto)
      → (let (q, u) = info_not_found t uid err s in continue (λ a. pure (to_user_info_dto a)) q u).0
        ≢ ok d
  unfound err s d h = let (r, u) = remove_user_info_cache t uid s in raising _ r u d h

  found :
      (r : Result (Option UserInfoEntity)) (s : t.State) (d : UserInfoDto)
      → (let (q, u) = continue (λ o. lift (info_or_fail o)) r s in
          let (q', u') = caught (info_not_found t uid) q u in
          continue (λ e. pure (to_user_info_dto e)) q' u').0
        ≡ ok d
      → (e : UserInfoEntity) × (r ≡ ok (some e)) × (d ≡ to_user_info_dto e)
  found (ok (some e)) s d h = (e, refl, ground arith)
  found (ok none) s d h = absurd (
      unfound (error "EntityNotFoundError" "Could not find any entity of type UserInfoEntity") s d
        h)
  found (throw err) s d h = absurd (unfound err s d h)

  -- What is returned is the cached information if there is some, otherwise that of the row.
  pub get_user_info_through :
      (s : t.State) (d : UserInfoDto)
      → (get_user_info_by_uid t uid s).0 ≡ ok d
      → (e : UserInfoEntity) × (through (cached_info t uid s) (t.row s uid) ≡ some e)
        × (d ≡ to_user_info_dto e)
  unfolding get_user_info_by_uid find_user_info_entity
  get_user_info_through s d h =
      let id = get_user_info_entity_cache_id uid in
      let (r, u) = t.find_one_cached id (get_tic_time_hms 24 0 0) uid s in
      let (e, same, is) = found r u d h in
      (e, sym (laws.find_one_cached_ok id (get_tic_time_hms 24 0 0) uid s (some e) same), is)

  -- Information that is returned leaves the state that the query has left.
  returned_state :
      (r : Result (Option UserInfoEntity)) (s : t.State) (d : UserInfoDto)
      → (let (q, u) = continue (λ o. lift (info_or_fail o)) r s in
          let (q', u') = caught (info_not_found t uid) q u in
          continue (λ e. pure (to_user_info_dto e)) q' u').0
        ≡ ok d
      → (let (q, u) = continue (λ o. lift (info_or_fail o)) r s in
          let (q', u') = caught (info_not_found t uid) q u in
          continue (λ e. pure (to_user_info_dto e)) q' u').1
        ≡ s
  returned_state (ok (some e)) s d h = refl
  returned_state (ok none) s d h = absurd (
      unfound (error "EntityNotFoundError" "Could not find any entity of type UserInfoEntity") s d
        h)
  returned_state (throw err) s d h = absurd (unfound err s d h)

  pub returned :
      (s : t.State) (d : UserInfoDto)
      → (get_user_info_by_uid t uid s).0 ≡ ok d
      → (get_user_info_by_uid t uid s).1
        ≡ (t.find_one_cached (get_user_info_entity_cache_id uid) (get_tic_time_hms 24 0 0) uid s).1
  unfolding get_user_info_by_uid find_user_info_entity
  returned s d h =
      let (r, u) =
        t.find_one_cached (get_user_info_entity_cache_id uid) (get_tic_time_hms 24 0 0) uid s in
      returned_state r u d h

  -- Nothing is cached, and the row is known.
  pub missed :
      (s : t.State) (row : Option UserInfoEntity) (d : UserInfoDto)
      → cached_info t uid s ≡ none
      → t.row s uid ≡ row
      → (get_user_info_by_uid t uid s).0 ≡ ok d
      → (e : UserInfoEntity) × (row ≡ some e) × (d ≡ to_user_info_dto e)
  missed s row d empty same h =
      let (e, from, is) = get_user_info_through s d h in
      (e, sym same ∙ sym (ap (λ c. through c (t.row s uid)) empty) ∙ from, is)

  -- Information that is there is returned, if the query is answered.
  pub get_user_info_of_seen :
      (s : t.State) (e : UserInfoEntity) (r : Option UserInfoEntity)
      → (read t uid s).0 ≡ ok r
      → seen t uid s ≡ some e
      → get_user_info_by_uid t uid s ≡ (ok (to_user_info_dto e), (read t uid s).1)
  unfolding get_user_info_by_uid find_user_info_entity
  get_user_info_of_seen s e r h there =
      let same = laws.find_one_cached_ok _ _ uid s r h ∙ there in rw (h, same) refl

  -- A read leaves to every reader what was there to see.
  pub seen-read : (other : String) (s : t.State) → seen t uid (read t other s).1 ≡ seen t uid s
  seen-read other s =
      let id = get_user_info_entity_cache_id in
      let row = laws.row-find_one_cached (id other) (get_tic_time_hms 24 0 0) other s uid in
      elim (laws.cached-find_one_cached (id other) (get_tic_time_hms 24 0 0) other s (id uid)) [
        | inl same ↦ λ i. through (same i) (row i)
        | inr (ids, stored) ↦
            ap (λ c. through c (t.row (read t other s).1 uid)) stored
            ∙ ap (λ u. seen t u s) (same_id uid other ids)
      ]
