-- ===== src/Controllers/OwnInfo.antt =====
-- Whose information the routes of the user information change.
use personal_blog_service.Common.{
  String, str_eq, eq_iff, ◌≡◌, ap, ◌∙◌, ◌⊎◌, inl, inr, false, Bool-cases, Option, some, arith,
}
use personal_blog_service.Exec.{ok, pure, lift, continue-ok, bind-ok, ◌>>=◌, ◌>>◌}
use personal_blog_service.Orm.{Table, TableLaws}
use personal_blog_service.UserInfo.Repository.{UserInfoEntity, Query, info_key}
use personal_blog_service.UserInfo.Service
use personal_blog_service.UserInfo.Service.{UserInfoDto, delete_user_info_by_uid}
use personal_blog_service.UserInfo.Others.{
  row-create_user_info, row-update_user_info, row-delete_user_info,
}
use personal_blog_service.Controllers.{SuccessResponse, success, authenticated_user_validation}
use personal_blog_service.Controllers.Named.{caller_of}
use personal_blog_service.Controllers.UserInfo.{
  UserInfoRequestDto, to_user_info_dto, create_user_info, update_user_info, delete_user_info,
}

-- The routes that write the information of a user, with their bodies.
pub data InfoRequest : Type 0 where
  creates updates : UserInfoRequestDto → InfoRequest
  deletes : InfoRequest

module _ (t : Table UserInfoEntity) where
  abbrev pub serve_info : InfoRequest → Option String → Query t SuccessResponse
  serve_info (creates d) caller = create_user_info t caller d
  serve_info (updates d) caller = update_user_info t caller d
  serve_info deletes caller = delete_user_info t caller

  -- What a route does for the user whom it has validated.
  abbrev perform : InfoRequest → String → Query t (Unit {0})
  perform (creates d) uid = Service.create_user_info t (to_user_info_dto uid d)
  perform (updates d) uid = Service.update_user_info t (to_user_info_dto uid d)
  perform deletes uid = delete_user_info_by_uid t uid

  row-perform :
      (laws : TableLaws t info_key) (r : InfoRequest) (uid j : String) (s : t.State)
      → str_eq uid j ≡ false
      → (perform r uid s).0 ≡ ok tt
      → t.row (perform r uid s).1 j ≡ t.row s j
  row-perform laws (creates d) uid j s other h =
      row-create_user_info t laws j (to_user_info_dto uid d) s other h
  row-perform laws (updates d) uid j s other h =
      row-update_user_info t laws j (to_user_info_dto uid d) s other h
  row-perform laws deletes uid j s other h = row-delete_user_info t laws j uid s other h

  -- What a route that answers with success has done: its request, for the user in the trusted header.
  abbrev Performed : InfoRequest → Option String → t.State → t.State → Type 0
  Performed r caller s s' =
      (uid : String) × (caller ≡ some uid)
      × ((perform r uid s).0 ≡ ok tt)
      × (s' ≡ (perform r uid s).1)

  performed :
      (r : InfoRequest) (caller : Option String) (s : t.State) (a : SuccessResponse)
      → let route = λ (uid : String). perform r uid >> pure success in
        ((lift (authenticated_user_validation caller) >>= route) s).0 ≡ ok a
        → Performed r caller s ((lift (authenticated_user_validation caller) >>= route) s).1
  performed r caller s a h =
      let (uid, given, h', same) = continue-ok _ (authenticated_user_validation caller) s a h in
      let (_, done, _, same') = bind-ok (λ _. pure success) (perform r uid) s a h' in
      (uid, caller_of caller uid given, done, same ∙ same')

  served :
      (r : InfoRequest) (caller : Option String) (s : t.State) (a : SuccessResponse)
      → (serve_info r caller s).0 ≡ ok a
      → Performed r caller s (serve_info r caller s).1
  unfolding create_user_info update_user_info delete_user_info
  served (creates d) caller s a h = performed (creates d) caller s a h
  served (updates d) caller s a h = performed (updates d) caller s a h
  served deletes caller s a h = performed deletes caller s a h

  -- A route that answers with success has changed no information but that of the user in the trusted
  -- header.
  pub serve_info-row :
      (laws : TableLaws t info_key) (r : InfoRequest) (caller : Option String) (s : t.State)
      (a : SuccessResponse) (j : String)
      → (serve_info r caller s).0 ≡ ok a
      → (t.row (serve_info r caller s).1 j ≡ t.row s j) ⊎ (caller ≡ some j)
  serve_info-row laws r caller s a j h =
      let (uid, named, done, same) = served r caller s a h in
      elim (Bool-cases (str_eq uid j)) [
        | inl e ↦ let owner : uid ≡ j = ground (arith, eq_iff uid j) in inr (named ∙ ap some owner)
        | inr other ↦ inl (ap (λ u. t.row u j) same ∙ row-perform laws r uid j s other done)
      ]
