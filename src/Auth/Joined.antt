-- ===== src/Auth/Joined.antt =====
-- What joining leaves in the table, and who can log in afterwards.
use personal_blog_service.Common.{
  ℕ, String, str_eq, eq_refl, decimal, ◌≡◌, refl, ap, ◌∙◌, Bool, true, false, Option, some,
  if◌then◌else◌, arith,
}
use personal_blog_service.Failure.Exceptions.{auth_invalid_password, user_already_exists}
use personal_blog_service.Exec.{Result, ok, throw, raise, continue, bind-ok}
use personal_blog_service.Auth.Platform.{
  user, JwtDto, UserAuthEntity, UserAuthRequestDto, Platform, PlatformLaws, State, Action,
}
use personal_blog_service.Auth.Repository.{
  save_user_auth_entity, is_exist, get_user_auth_entity, with_session,
}
use personal_blog_service.Auth.Repository.Coherence.{row_of}
use personal_blog_service.Auth.Jwt.{create}
use personal_blog_service.Auth.Jwt.Tokens.{row-create}
use personal_blog_service.Auth.Service.{
  hashing_password, new_user, register, create_new_user, login,
}

module _ (p : Platform) (laws : PlatformLaws p) (d : UserAuthRequestDto) (dto : JwtDto) where
  -- The row of an account that is made at a time, which is its salt.
  abbrev pub account : ℕ → UserAuthEntity
  account now = new_user p d.uid (hashing_password p d.password (decimal now)) (decimal now) "N"

  -- The account that was made, and the state in which its tokens are made.
  abbrev pub Registered : ℕ → Result JwtDto × State p → Type 0
  Registered now out =
      (w : State p) × (row_of p d.uid w ≡ some (account now))
      × ((create p d.uid user w).0 ≡ ok dto)
      × (out.1 ≡ (create p d.uid user w).1)

  register-Registered :
      (s : State p) → (register p d s).0 ≡ ok dto → Registered s.now (register p d s)
  unfolding save_user_auth_entity
  register-Registered s h =
      let e = account s.now in
      let (_, inserted, made, same) =
        bind-ok (λ _. create p d.uid user) (save_user_auth_entity p e) s dto h in
      (
        (save_user_auth_entity p e s).1,
        laws.users.row-insert e s.users d.uid inserted ∙ rw (eq_refl d.uid) refl,
        made,
        same,
      )

  abbrev unless_taken : Bool → Action p JwtDto
  unless_taken exists = if exists then raise (user_already_exists d.uid) else register p d

  joined-Registered :
      (exists : Result Bool) (s : State p)
      → (continue unless_taken exists s).0 ≡ ok dto
      → Registered s.now (continue unless_taken exists s)
  joined-Registered (ok true) s h = absurd (ground arith)
  joined-Registered (ok false) s h = register-Registered s h
  joined-Registered (throw _) s h = absurd (ground arith)

  pub create_new_user-Registered :
      (s : State p) → (create_new_user p d s).0 ≡ ok dto → Registered s.now (create_new_user p d s)
  unfolding create_new_user is_exist
  create_new_user-Registered s h = joined-Registered (is_exist p d.uid s).0 (is_exist p d.uid s).1 h

  -- What the table holds of the account after it was joined.
  joined_row :
      (s : State p)
      → (create_new_user p d s).0 ≡ ok dto
      → row_of p d.uid (create_new_user p d s).1
        ≡ some (
            with_session
              (record { uid = d.uid; refresh_token = dto.refresh_token; user_role = user })
              (account s.now))
  joined_row s h =
      let (w, row, made, same) = create_new_user-Registered s h in
      ap (row_of p d.uid) same ∙ row-create p laws d.uid user w (account s.now) dto row made

  -- After a successful join, a login for the user makes tokens if the hash of its password, salted with
  -- the time of the join, is the one of the password that was joined with, and is refused with
  -- AUTH_INVALID_PASSWORD otherwise, at any later time, once the query of the account is answered.
  pub login-create_new_user :
      (s : State p) (password : String) (now : ℕ) (found : Option UserAuthEntity)
      → (create_new_user p d s).0 ≡ ok dto
      → let t : State p = record (create_new_user p d s).1 { now = now } in
        (p.users.find_one d.uid t.users).0 ≡ ok found
        → let asked : State p = record t { users = (p.users.find_one d.uid t.users).1 } in
          login p (record { uid = d.uid; password = password }) t
          ≡ (if str_eq
                  (hashing_password p password (decimal s.now))
                  (hashing_password p d.password (decimal s.now))
                then create p d.uid user
                else raise auth_invalid_password)
              asked
  unfolding login get_user_auth_entity
  login-create_new_user s password now found h answered =
      let t : State p = record (create_new_user p d s).1 { now = now } in
      let row = laws.users.find_one_ok d.uid t.users found answered ∙ joined_row s h in
      rw (answered, row) refl
