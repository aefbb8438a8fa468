-- ===== src/Controllers/Sessions.antt =====
-- What the cookie of a response is worth.
use personal_blog_service.Common.{
  ℕ, ◌+◌, ◌≤◌, String, str_eq, eq_iff, ◌≡◌, ◌≢◌, refl, ap, sym, ◌∙◌, Bool, true, false, some, ◌∷◌,
  if◌then◌else◌, arith,
}
use personal_blog_service.Exec.{Exec, Result, ok, throw, pure, modify, continue, ok-injective, ◌>>◌}
use personal_blog_service.Auth.Platform.{
  user, JwtDto, UserAuthRequestDto, UserSessionEntity, Platform, PlatformLaws, State,
}
use personal_blog_service.Auth.Repository.{get_user_session_entity_by_uid}
use personal_blog_service.Auth.Jwt.{valid, create, verify_refresh_token}
use personal_blog_service.Auth.Jwt.Tokens.{verify_refresh_token-create}
use personal_blog_service.Auth.Joined.{account, create_new_user-Registered}
use personal_blog_service.Auth.Service.{create_new_user}
use personal_blog_service.Controllers.Cookie.{
  CookieConfig, Cookie, Responding, refresh_cookie, set_cookie, intercept,
}
use personal_blog_service.Controllers.Accounts.{on_store, join}

not_empty : (token : String) → token ≢ "" → str_eq token "" ≡ false
not_empty token filled = ground (arith, eq_iff token "")

module _ {S : Type 0} where
  -- Whether the cookie is set or not, the data goes through.
  tapped :
      (empty : Bool) (f : Responding S → Responding S) (d dto : JwtDto) (r : Responding S)
      → (((if empty then pure tt else modify f) >> pure d) r).0 ≡ ok dto
      → d ≡ dto
  tapped true f d dto r h = ok-injective h
  tapped false f d dto r h = ok-injective h

  module _ (config : CookieConfig) (dto : JwtDto) where
    -- The response with the cookie of a pair of tokens.
    abbrev pub with_cookie : Responding S → Responding S
    with_cookie r = record r { cookies = refresh_cookie config dto.refresh_token ∷ r.cookies }

    answered :
        (q : Result JwtDto) (r : Responding S)
        → dto.refresh_token ≢ ""
        → (continue (λ d. set_cookie config d >> pure d) q r).0 ≡ ok dto
        → (q ≡ ok dto) × ((continue (λ d. set_cookie config d >> pure d) q r).1 ≡ with_cookie r)
    unfolding set_cookie
    answered (throw _) r filled h = absurd (ground arith)
    answered (ok d) r filled h =
        let same : d ≡ dto = tapped (str_eq d.refresh_token "") _ d dto r h in
        (ap ok same, rw (same, not_empty dto.refresh_token filled) refl)

    -- A response that arrives has set the cookie of its token, if this is not empty.
    pub intercept-with_cookie :
        (next : Exec (Responding S) JwtDto) (r : Responding S)
        → dto.refresh_token ≢ ""
        → (intercept config next r).0 ≡ ok dto
        → ((next r).0 ≡ ok dto) × ((intercept config next r).1 ≡ with_cookie (next r).1)
    unfolding intercept
    intercept-with_cookie next r filled h = answered (next r).0 (next r).1 filled h

module _ (p : Platform) (laws : PlatformLaws p) (d : UserAuthRequestDto) (dto : JwtDto) where
  -- The refresh token of the cookie that a successful join sets is accepted until its last second and
  -- names the new user, once the query of the session is answered, if the token is not empty.
  pub verify_refresh_token-join :
      (config : CookieConfig) (r : Responding (State p)) (read : UserSessionEntity) (ms : ℕ)
      → (join p config d r).0 ≡ ok dto
      → dto.refresh_token ≢ ""
      → ms + 1000 ≤ p.config.refresh_token_expire_time
      → let r' = (join p config d r).1 in
        let later : State p = record r'.store { now = r'.store.now + ms } in
        (get_user_session_entity_by_uid p d.uid later).0 ≡ ok read
        → (cookie : Cookie) × (r'.cookies ≡ cookie ∷ r.cookies)
          × (cookie.name ≡ "refreshToken")
          × ((verify_refresh_token p (some cookie.value) later).0
              ≡ ok (valid (record { uid = d.uid; refresh_token = cookie.value; user_role = user })))
  unfolding join
  verify_refresh_token-join config r read ms h filled early answered_later =
      let next = on_store p config (create_new_user p d) in
      let (returned, shown) = intercept-with_cookie config dto next r filled h in
      let (w, row, made, same) = create_new_user-Registered p laws d dto r.store returned in
      let stores : (join p config d r).1.store ≡ (create p d.uid user w).1 =
        ap (λ x. x.store) shown ∙ same in
      let later = λ (u : State p). record u { now = u.now + ms } in
      (
        refresh_cookie config dto.refresh_token,
        ap (λ x. x.cookies) shown,
        refl,
        ap (λ u. (verify_refresh_token p (some dto.refresh_token) (later u)).0) stores
            ∙ verify_refresh_token-create p laws d.uid user w (account p laws d dto r.store.now) dto
                read ms row made early
                (ap (λ u. (get_user_session_entity_by_uid p d.uid (later u)).0) (sym stores)
                  ∙ answered_later),
      )
