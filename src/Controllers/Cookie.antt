-- ===== src/Controllers/Cookie.antt =====
-- src/user/interceptor/set-refresh-token-cookie.interceptor.ts: the refresh token of a response goes
-- into a cookie too.
use personal_blog_service.Common.{ℕ, String, str_eq, Bool, true, List, ◌∷◌, if◌then◌else◌}
use personal_blog_service.Exec.{Exec, pure, modify, ◌>>=◌, ◌>>◌}
use personal_blog_service.Auth.Platform.{JwtDto}

-- The cookie settings of authConfig.
pub record CookieConfig : Type 0 where
  pub cookie_max_age : ℕ
  pub cookie_secure : Bool
  pub cookie_same_site : String

pub record Cookie : Type 0 where
  pub name : String
  pub value : String
  pub http_only : Bool
  pub secure : Bool
  pub same_site : String
  pub max_age : ℕ

-- The cookies set on the response, the last one first, and what the handler changes.
pub record Responding (S : Type 0) : Type 0 where
  pub cookies : List Cookie
  pub store : S

abbrev pub refresh_cookie : CookieConfig → String → Cookie
refresh_cookie config refresh_token = record {
  name = "refreshToken";
  value = refresh_token;
  http_only = true;
  secure = config.cookie_secure;
  same_site = config.cookie_same_site;
  max_age = config.cookie_max_age;
}

module _ {S : Type 0} (config : CookieConfig) where
  -- The `tap`: every response of these routes is a JwtDto.
  unfoldable pub set_cookie : JwtDto → Exec (Responding S) (Unit {0})
  set_cookie data_object =
      if str_eq data_object.refresh_token ""
      then pure tt
      else modify
          (λ r. record r { cookies = refresh_cookie config data_object.refresh_token ∷ r.cookies })

  unfoldable pub intercept : Exec (Responding S) JwtDto → Exec (Responding S) JwtDto
  intercept next = do data_object ← next; set_cookie data_object; pure data_object
