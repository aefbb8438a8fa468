-- ===== src/Controllers/Accounts.antt =====
-- src/user/controller/user-auth.controller.ts. Every route is public, and its response passes
-- SetRefreshTokenCookieInterceptor.
use personal_blog_service.Common.{String, Option}
use personal_blog_service.Exec.{Exec}
use personal_blog_service.Auth.Platform.{JwtDto, UserAuthRequestDto, Platform, Action, State}
use personal_blog_service.Auth.Service
use personal_blog_service.Auth.Service.{create_new_user}
use personal_blog_service.Controllers.Cookie.{CookieConfig, Responding, intercept}

module _ (p : Platform) (config : CookieConfig) where
  abbrev pub Route : Type 0
  Route = Exec (Responding (State p)) JwtDto

  -- A service's method behind the interceptor.
  abbrev pub on_store : Action p JwtDto → Route
  on_store m r = let (q, s) = m r.store in (q, record r { store = s })

  unfoldable pub join : UserAuthRequestDto → Route
  join d = intercept config (on_store (create_new_user p d))

  unfoldable pub login : UserAuthRequestDto → Route
  login d = intercept config (on_store (Service.login p d))

  -- The argument is `req.cookies.refreshToken`.
  unfoldable pub refresh : Option String → Route
  refresh refresh_token = intercept config (on_store (Service.refresh p refresh_token))

  unfoldable pub google_oauth_login : String → Route
  google_oauth_login credential_token =
      intercept config (on_store (Service.google_oauth_login p credential_token))
