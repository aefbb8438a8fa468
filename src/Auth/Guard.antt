-- ===== src/Auth/Guard.antt =====
-- src/auth/auth.guard.ts: who may enter a route, and as whom.
pub mod Entry
pub mod Mixed
use Prim.Native.String.{slice, len}
use personal_blog_service.Common.{
  ℕ, ◌+◌, String, str_eq, Bool, true, false, Option, none, some, List, [], ◌∷◌, if◌then◌else◌, ◌||◌,
}
use text.Mathlib.Text.{find?}
use personal_blog_service.Failure.Exceptions.{Thrown, auth_unauthorized}
use personal_blog_service.Exec.{
  Exec, Result, ok, throw, pure, raise, lift, gets, modify, ◌>>=◌, ◌>>◌,
}
use personal_blog_service.Auth.Platform.{
  UserRole, admin, user, UserSessionEntity, Platform, Action, State,
}
use personal_blog_service.Auth.Jwt.{
  Verified, valid, failed, verify_access_token, verify_refresh_token,
}

-- What the guard reads and writes of a request.
pub record GuardRequest : Type 0 where
  pub authenticated_user : Option String
  pub authorization : Option String
  pub refresh_token : Option String

-- The metadata of a route: `@Public()` of its class, and the merged `@Roles` of handler and class.
pub record Route : Type 0 where
  pub is_public : Bool
  pub roles : Option (List UserRole)

abbrev role_eq : UserRole → UserRole → Bool
role_eq admin admin = true
role_eq user user = true
role_eq admin user = false
role_eq user admin = false

abbrev includes : List UserRole → UserRole → Bool
includes [] r = false
includes (x ∷ xs) r = role_eq x r || includes xs r

-- roles?.includes(role) ?? true
unfoldable pub is_allowed : Option (List UserRole) → UserRole → Bool
is_allowed none r = true
is_allowed (some roles) r = includes roles r

abbrev up_to : String → Option ℕ → String
up_to text none = text
up_to text (some i) = slice text 0 i

abbrev second_part : String → String → Option ℕ → Option String
second_part separator text none = none
second_part separator text (some i) =
    let rest = slice text (i + len separator) (len text) in some (up_to rest (find? rest separator))

-- text.split('Bearer ')[1]; `none` is undefined.
unfoldable pub bearer_token : String → Option String
bearer_token text = second_part "Bearer " text (find? text "Bearer ")

pub record Call (S : Type 0) : Type 0 where
  pub request : GuardRequest
  pub store : S

module _ (p : Platform) where
  abbrev pub Guarded : Type 0 → Type 0
  Guarded = Exec (Call (State p))

  -- A service's method inside the guard.
  abbrev pub on_store : {A : Type 0} → Action p A → Guarded A
  on_store m c = let (r, s) = m c.store in (r, record c { store = s })

  -- `instanceof Error` is an AuthUnauthorizedException.
  abbrev pub authorized : {A : Type 0} → Verified A → Result A
  authorized (valid a) = ok a
  authorized (failed _) = throw (auth_unauthorized none)

  abbrev pub set_user : Option String → Guarded (Unit {0})
  set_user u = modify (λ c. record c { request = record c.request { authenticated_user = u } })

  -- The role decides, and the uid of the session becomes the trusted header.
  unfoldable pub admit : Option (List UserRole) → UserSessionEntity → Guarded Bool
  unfolding is_allowed
  admit roles session =
      if is_allowed roles session.user_role
      then (do set_user (some session.uid); pure true)
      else pure false

  -- A request with an Authorization header; an empty one counts as none.
  unfoldable pub authenticate : Route → String → Guarded Bool
  authenticate route authorization = do
    refresh_token ← gets (λ c. c.request.refresh_token)
    access ← on_store (verify_access_token p (bearer_token authorization))
    lift (authorized access)
    verified ← on_store (verify_refresh_token p refresh_token)
    session ← lift (authorized verified)
    admit route.roles session

  abbrev pub with_header : Route → Option String → Guarded Bool
  with_header route none = raise (auth_unauthorized none)
  with_header route (some h) =
      if str_eq h "" then raise (auth_unauthorized none) else authenticate route h

  unfoldable pub can_activate : Route → Guarded Bool
  can_activate route = do
    set_user none
    header ← gets (λ c. c.request.authorization)
    (if route.is_public then pure true else with_header route header)
