-- ===== src/UserInfo/Others.antt =====
-- The information of other users, when that of one is created, changed or deleted.
use personal_blog_service.Common.{String, str_eq, ◌≡◌, ◌∙◌, false, arith}
use personal_blog_service.Failure.Exceptions.{user_info_not_found}
use personal_blog_service.Exec.{ok, raise, continue-ok}
use personal_blog_service.Orm.{Table, TableLaws}
use personal_blog_service.UserInfo.Coherence.{tested, tested_new}
use personal_blog_service.UserInfo.Repository.{
  UserInfoEntity, info_key, is_exist, save_user_info_entity, remove_user_info_cache,
  update_user_info_entity, delete_user_info_entity_by_uid,
}
use personal_blog_service.UserInfo.Service.{
  UserInfoDto, to_user_info_entity, create_user_info, update_user_info, delete_user_info_by_uid,
}
use personal_blog_service.Utils.CacheIds.{get_user_info_entity_cache_id}

module _ (t : Table UserInfoEntity) (laws : TableLaws t info_key) (j : String) where
  -- The row of `j` after the test for existence and the end of the cached result.
  row-dropped :
      (uid : String) (s : t.State)
      → t.row (remove_user_info_cache t uid (t.exist uid s).1).1 j ≡ t.row s j
  unfolding remove_user_info_cache
  row-dropped uid s =
      laws.row-remove_cached (get_user_info_entity_cache_id uid) (t.exist uid s).1 j
      ∙ laws.row-exist uid s j

  pub row-create_user_info :
      (d : UserInfoDto) (s : t.State)
      → str_eq d.uid j ≡ false
      → (create_user_info t d s).0 ≡ ok tt
      → t.row (create_user_info t d s).1 j ≡ t.row s j
  unfolding create_user_info save_user_info_entity is_exist
  row-create_user_info d s other h =
      let e = to_user_info_entity d in
      let (r, u) = t.exist d.uid s in
      let (done, same) = tested_new t laws r u _ (t.insert e) h in
      rw same (laws.row-insert e u j done ∙ rw other (laws.row-exist d.uid s j))

  pub row-update_user_info :
      (d : UserInfoDto) (s : t.State)
      → str_eq d.uid j ≡ false
      → (update_user_info t d s).0 ≡ ok tt
      → t.row (update_user_info t d s).1 j ≡ t.row s j
  unfolding update_user_info update_user_info_entity is_exist
  row-update_user_info d s other h =
      let e = to_user_info_entity d in
      let (r, u) = t.exist d.uid s in
      let (there, changed, same) =
        tested t laws d.uid r u (update_user_info_entity t e) (raise (user_info_not_found d.uid))
          (λ v x. ground arith) h in
      let (r', v) = remove_user_info_cache t d.uid u in
      let (_, gone, done, same') = continue-ok (λ _. t.update d.uid (λ _. e)) r' v tt changed in
      rw (same, same') (laws.row-update d.uid (λ _. e) v j done ∙ rw other (row-dropped d.uid s))

  pub row-delete_user_info :
      (uid : String) (s : t.State)
      → str_eq uid j ≡ false
      → (delete_user_info_by_uid t uid s).0 ≡ ok tt
      → t.row (delete_user_info_by_uid t uid s).1 j ≡ t.row s j
  unfolding delete_user_info_by_uid delete_user_info_entity_by_uid is_exist
  row-delete_user_info uid s other h =
      let (r, u) = t.exist uid s in
      let (there, changed, same) =
        tested t laws uid r u (delete_user_info_entity_by_uid t uid)
          (raise (user_info_not_found uid)) (λ v x. ground arith) h in
      let (r', v) = remove_user_info_cache t uid u in
      let (_, gone, done, same') = continue-ok (λ _. t.delete uid) r' v tt changed in
      rw (same, same') (laws.row-delete uid v j done ∙ rw other (row-dropped uid s))
