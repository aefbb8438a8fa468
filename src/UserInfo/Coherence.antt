-- ===== src/UserInfo/Coherence.antt =====
-- What is read of the user information after it was created, changed or deleted.
use personal_blog_service.Common.{
  String, eq_refl, ◌≡◌, refl, ◌∙◌, sym, ap, ◌≢◌, Bool, true, false, not, Option, none, some, arith,
  if◌then◌else◌,
}
use personal_blog_service.Failure.Exceptions.{Thrown, user_info_not_found}
use personal_blog_service.Exec.{Result, ok, throw, raise, continue, continue-ok}
use personal_blog_service.Redis.{is_absent}
use personal_blog_service.Orm.{Table, TableLaws, map_row}
use personal_blog_service.UserInfo.Reads.{cached_info, missed}
use personal_blog_service.UserInfo.Repository.{
  UserInfoEntity, Query, info_key, is_exist, save_user_info_entity, remove_user_info_cache,
  update_user_info_entity, delete_user_info_entity_by_uid,
}
use personal_blog_service.UserInfo.Service.{
  UserInfoDto, to_user_info_entity, to_user_info_dto, create_user_info, get_user_info_by_uid,
  update_user_info, delete_user_info_by_uid,
}
use personal_blog_service.Utils.CacheIds.{get_user_info_entity_cache_id}

module _ (t : Table UserInfoEntity) (laws : TableLaws t info_key) (uid : String) where
  emptied :
      (s : t.State)
      → (remove_user_info_cache t uid s).0 ≡ ok tt
      → cached_info t uid (remove_user_info_cache t uid s).1 ≡ none
  unfolding remove_user_info_cache
  emptied s h =
      let id = get_user_info_entity_cache_id uid in
      laws.cached-remove_cached id s id h ∙ rw (eq_refl id) refl

  -- The outcome of the test for existence.
  pub tested :
      (r : Result Bool) (s : t.State) (there missing : Query t (Unit {0}))
      → ((u : t.State) → (missing u).0 ≢ ok tt)
      → (continue (λ b. if b then there else missing) r s).0 ≡ ok tt
      → (r ≡ ok true)
        × ((there s).0 ≡ ok tt)
        × ((continue (λ b. if b then there else missing) r s).1 ≡ (there s).1)
  tested (ok true) s there missing never h = (refl, h, refl)
  tested (ok false) s there missing never h = absurd (never s h)
  tested (throw _) s there missing never h = ground arith

  -- A row that is there is there after the cached information was dropped.
  kept :
      (s : t.State)
      → (t.exist uid s).0 ≡ ok true
      → let u = (remove_user_info_cache t uid (t.exist uid s).1).1 in
        true ≡ not (is_absent (t.row u uid))
  unfolding remove_user_info_cache
  kept s h =
      let u = (t.exist uid s).1 in
      laws.exist_ok uid s true h
      ∙ ap (λ o. not (is_absent o))
          (sym (
            laws.row-remove_cached (get_user_info_entity_cache_id uid) u uid
            ∙ laws.row-exist uid s uid))

overwritten :
    (e : UserInfoEntity) (row : Option UserInfoEntity)
    → true ≡ not (is_absent row)
    → map_row (λ _. e) row ≡ some e
overwritten e none h = ground arith
overwritten e (some _) h = refl

only :
    (a e : UserInfoEntity)
    → ◌≡◌ {A = Option UserInfoEntity} (some a) (some e)
    → to_user_info_dto e ≡ to_user_info_dto a
only a e h = cc

module _ (t : Table UserInfoEntity) (laws : TableLaws t info_key) where
  updated :
      (d : UserInfoDto) (s : t.State)
      → (update_user_info t d s).0 ≡ ok tt
      → let u = (update_user_info t d s).1 in
        (cached_info t d.uid u ≡ none) × (t.row u d.uid ≡ some (to_user_info_entity d))
  unfolding update_user_info update_user_info_entity is_exist
  updated d s h =
      let e = to_user_info_entity d in
      let (r, u) = t.exist d.uid s in
      let (there, changed, same) =
        tested t laws d.uid r u (update_user_info_entity t e) (raise (user_info_not_found d.uid))
          (λ v x. ground arith) h in
      let (r', v) = remove_user_info_cache t d.uid u in
      let (_, gone, done, same') = continue-ok (λ _. t.update d.uid (λ _. e)) r' v tt changed in
      rw (same, same')
        (
          laws.cached-update d.uid (λ _. e) v (get_user_info_entity_cache_id d.uid)
              ∙ emptied t laws d.uid u gone,
          laws.row-update d.uid (λ _. e) v d.uid done
              ∙ rw (eq_refl d.uid) (overwritten e (t.row v d.uid) (kept t laws d.uid s there)),
        )

  -- Once an update has succeeded, what is read next is what was written.
  pub get-update_user_info :
      (d read : UserInfoDto) (s : t.State)
      → (update_user_info t d s).0 ≡ ok tt
      → (get_user_info_by_uid t d.uid (update_user_info t d s).1).0 ≡ ok read
      → read ≡ d
  get-update_user_info d read s done h =
      let u = (update_user_info t d s).1 in
      let (empty, row) = updated d s done in
      let (e, same, is) = missed t laws d.uid u (some (to_user_info_entity d)) read empty row h in
      is ∙ only (to_user_info_entity d) e same

  deleted :
      (uid : String) (s : t.State)
      → (delete_user_info_by_uid t uid s).0 ≡ ok tt
      → let u = (delete_user_info_by_uid t uid s).1 in
        (cached_info t uid u ≡ none) × (t.row u uid ≡ none)
  unfolding delete_user_info_by_uid delete_user_info_entity_by_uid is_exist
  deleted uid s h =
      let (r, u) = t.exist uid s in
      let (there, changed, same) =
        tested t laws uid r u (delete_user_info_entity_by_uid t uid)
          (raise (user_info_not_found uid)) (λ v x. ground arith) h in
      let (r', v) = remove_user_info_cache t uid u in
      let (_, gone, done, same') = continue-ok (λ _. t.delete uid) r' v tt changed in
      rw (same, same')
        (
          laws.cached-delete uid v (get_user_info_entity_cache_id uid) ∙ emptied t laws uid u gone,
          laws.row-delete uid v uid done ∙ rw (eq_refl uid) refl,
        )

  -- Once a deletion has succeeded, the next read returns nothing: it throws.
  pub get-delete_user_info :
      (uid : String) (read : UserInfoDto) (s : t.State)
      → (delete_user_info_by_uid t uid s).0 ≡ ok tt
      → (get_user_info_by_uid t uid (delete_user_info_by_uid t uid s).1).0 ≢ ok read
  get-delete_user_info uid read s done h =
      let (empty, row) = deleted uid s done in
      let (e, same, is) =
        missed t laws uid (delete_user_info_by_uid t uid s).1 none read empty row h in
      ground arith

  -- The outcome of the test for existence, when the information must not be there.
  pub tested_new :
      (r : Result Bool) (s : t.State) (err : Thrown) (save : Query t (Unit {0}))
      → (continue (λ b. if b then raise err else save) r s).0 ≡ ok tt
      → ((save s).0 ≡ ok tt) × ((continue (λ b. if b then raise err else save) r s).1 ≡ (save s).1)
  tested_new (ok true) s err save h = ground arith
  tested_new (ok false) s err save h = (h, refl)
  tested_new (throw _) s err save h = ground arith

  created :
      (d : UserInfoDto) (s : t.State)
      → cached_info t d.uid s ≡ none
      → (create_user_info t d s).0 ≡ ok tt
      → let u = (create_user_info t d s).1 in
        (cached_info t d.uid u ≡ none) × (t.row u d.uid ≡ some (to_user_info_entity d))
  unfolding create_user_info save_user_info_entity is_exist
  created d s empty h =
      let e = to_user_info_entity d in
      let id = get_user_info_entity_cache_id d.uid in
      let (r, u) = t.exist d.uid s in
      let (done, same) = tested_new r u _ (t.insert e) h in
      rw same (
        laws.cached-insert e u id ∙ laws.cached-exist d.uid s id ∙ empty,
        laws.row-insert e u d.uid done ∙ rw (eq_refl d.uid) refl,
      )

  -- Once information was created for a user of whom nothing is cached, it is what is read next.
  pub get-create_user_info :
      (d read : UserInfoDto) (s : t.State)
      → cached_info t d.uid s ≡ none
      → (create_user_info t d s).0 ≡ ok tt
      → (get_user_info_by_uid t d.uid (create_user_info t d s).1).0 ≡ ok read
      → read ≡ d
  get-create_user_info d read s nothing done h =
      let u = (create_user_info t d s).1 in
      let (empty, row) = created d s nothing done in
      let (e, same, is) = missed t laws d.uid u (some (to_user_info_entity d)) read empty row h in
      is ∙ only (to_user_info_entity d) e same
