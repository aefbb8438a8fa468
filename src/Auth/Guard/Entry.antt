-- ===== src/Auth/Guard/Entry.antt =====
-- Whom the guard lets in, and as whom.
use personal_blog_service.Common.{
  if◌then◌else◌, String, str_eq, ◌≡◌, refl, ap, Bool, true, false, Option, none, some, arith,
}
use personal_blog_service.Failure.Exceptions.{Thrown, auth_unauthorized}
use personal_blog_service.Exec.{Result, ok, throw, pure, raise, continue, lift, ◌>>=◌, ◌>>◌}
use personal_blog_service.Auth.Platform.{UserSessionEntity, Platform, State}
use personal_blog_service.Auth.Jwt.{
  Verified, valid, failed, is_token, verify_access_token, verify_refresh_token,
}
use personal_blog_service.Auth.Jwt.Tokens.{verify_refresh_token_matched}
use personal_blog_service.Auth.Guard.{
  Route, Call, on_store, is_allowed, bearer_token, admit, authenticate, authorized, with_header,
  can_activate,
}

-- Why the request `c` may name `user` in its trusted header after the guard has answered `r`:
-- nobody is named, and then only a public route is open; or both tokens were good, the cookie is
-- the refresh token that the session of `user` stores, and the role of the session is allowed.
pub data Entered (p : Platform) (route : Route) (c : Call (State p)) (r : Result Bool)
    (user : Option String) : Type 0 where
  nobody : user ≡ none → (r ≡ ok true → route.is_public ≡ true) → Entered p route c r user
  owner :
      (h : String) (session : UserSessionEntity) (s t : State p)
      → c.request.authorization ≡ some h
      → verify_access_token p (bearer_token h) c.store ≡ (ok (valid tt), s)
      → verify_refresh_token p c.request.refresh_token s ≡ (ok (valid session), t)
      → is_token c.request.refresh_token session.refresh_token ≡ true
      → is_allowed route.roles session.user_role ≡ true
      → r ≡ ok true
      → user ≡ some session.uid
      → Entered p route c r user

module _ (p : Platform) (route : Route) (c : Call (State p)) where
  abbrev IsEntered : Result Bool × Call (State p) → Type 0
  IsEntered (r, d) = Entered p route c r d.request.authenticated_user

  refused :
      (e : Thrown) (d : Call (State p))
      → d.request.authenticated_user ≡ none
      → IsEntered (throw e, d)
  refused e d start = nobody start (λ h. ground arith)

  module _ (h : String) (header : c.request.authorization ≡ some h) (s : State p)
      (access : verify_access_token p (bearer_token h) c.store ≡ (ok (valid tt), s)) where
    admitted :
        (session : UserSessionEntity) (d : Call (State p)) (t : State p)
        → d.request.authenticated_user ≡ none
        → verify_refresh_token p c.request.refresh_token s ≡ (ok (valid session), t)
        → (allowed : Bool) → is_allowed route.roles session.user_role ≡ allowed
        → IsEntered (admit p route.roles session d)
    unfolding admit
    admitted session d t start e true a = rw a (
        owner h session s t header access e
          (verify_refresh_token_matched p c.request.refresh_token s session (ap (λ x. x.0) e)) a
          refl refl)
    admitted session d t start e false a = rw a (nobody start (λ h. ground arith))

    -- The refresh token has been looked at.
    judged :
        (r : Result (Verified UserSessionEntity)) (d : Call (State p)) (t : State p)
        → d.request.authenticated_user ≡ none
        → verify_refresh_token p c.request.refresh_token s ≡ (r, t)
        → IsEntered (continue (λ v. lift (authorized p v) >>= admit p route.roles) r d)
    judged (ok (valid session)) d t start e = admitted session d t start e _ refl
    judged (ok (failed _)) d t start e = refused _ d start
    judged (throw _) d t start e = refused _ d start

  -- What is left of `authenticate` when the access token has been looked at.
  abbrev rest : Result (Verified (Unit {0})) → Call (State p) → Result Bool × Call (State p)
  rest = continue (λ access.
      lift (authorized p access)
      >> (on_store p (verify_refresh_token p c.request.refresh_token) >>= λ v.
          lift (authorized p v) >>= admit p route.roles))

  -- The request with its trusted header stripped.
  abbrev stripped : Call (State p)
  stripped = record c { request = record c.request { authenticated_user = none } }

  module _ (h : String) (header : c.request.authorization ≡ some h) where
    examined :
        (r : Result (Verified (Unit {0}))) (s : State p)
        → verify_access_token p (bearer_token h) c.store ≡ (r, s)
        → IsEntered (rest r (record stripped { store = s }))
    examined (ok (valid _)) s e =
        let (q, t) = verify_refresh_token p c.request.refresh_token s in
        judged h header s e q (record stripped { store = t }) t refl refl
    examined (ok (failed _)) s e = refused _ (record stripped { store = s }) refl
    examined (throw _) s e = refused _ (record stripped { store = s }) refl

    authenticated : IsEntered (authenticate p route h stripped)
    unfolding authenticate
    authenticated = let (r, s) = verify_access_token p (bearer_token h) c.store in examined r s refl

  -- An empty header is no header.
  from_text :
      (h : String) (empty : Bool)
      → c.request.authorization ≡ some h
      → IsEntered
          ((if empty then raise (auth_unauthorized none) else authenticate p route h) stripped)
  from_text h true header = refused _ stripped refl
  from_text h false header = authenticated h header

  from_header :
      (h : Option String) → c.request.authorization ≡ h → IsEntered (with_header p route h stripped)
  from_header none header = refused _ stripped refl
  from_header (some h) header = from_text h (str_eq h "") header

  from_route :
      (open_to_all : Bool)
      → route.is_public ≡ open_to_all
      → IsEntered (
          (if open_to_all then pure true else with_header p route c.request.authorization) stripped)
  from_route true e = nobody refl (λ _. e)
  from_route false e = from_header c.request.authorization refl

  -- Whatever the request brings, its trusted header then names nobody, or the user whose session
  -- stores the refresh token of the cookie. With nobody, only a public route lets it in.
  pub can_activate-Entered :
      Entered p route c
        (can_activate p route c).0
        (can_activate p route c).1.request.authenticated_user
  unfolding can_activate
  can_activate-Entered = from_route route.is_public refl
