-- ===== src/Web.antt =====
-- A request, the response under construction, and the server's state around them.
use personal_blog_service.Common.{ℕ, String, Option, none, some, List, [], ◌∷◌}

-- The value of a Node header: a text, or an array of texts.
pub data HeaderValue : Type 0 where
  single : String → HeaderValue
  array : List String → HeaderValue

-- `Array.isArray(raw) ? raw[0] : raw`; `none` is undefined.
unfoldable pub first_value : Option HeaderValue → Option String
first_value none = none
first_value (some (single v)) = some v
first_value (some (array [])) = none
first_value (some (array (v ∷ _))) = some v

-- The parts of an Express request that the interceptors read.
pub record Request : Type 0 where
  pub method : String
  pub path : String
  pub idempotency_key : Option HeaderValue
  pub authenticated_user : Option HeaderValue

-- `R` is the state of Redis, `App` that of everything else a handler changes.
pub record World (R App : Type 0) : Type 0 where
  pub redis : R
  -- new Date().toISOString()
  pub date : String
  -- The headers set on the response, the last one first.
  pub headers : List (String × String)
  -- response.statusCode
  pub status_code : ℕ
  pub app : App
