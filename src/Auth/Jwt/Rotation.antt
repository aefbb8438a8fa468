-- ===== src/Auth/Jwt/Rotation.antt =====
-- A new pair of tokens takes the place of the one before.
use personal_blog_service.Common.{ℕ, ◌+◌, String, eq_iff, ◌≡◌, ◌≢◌, ◌∙◌, ap, some, arith}
use personal_blog_service.Exec.{Result, ok, throw, pure, continue, caught, ok-injective}
use personal_blog_service.Auth.Platform.{
  UserAuthEntity, UserRole, UserSessionEntity, JwtDto, Claims, Platform, PlatformLaws, State,
}
use personal_blog_service.Auth.Repository.{get_user_session_entity_by_uid}
use personal_blog_service.Auth.Repository.Coherence.{row_of}
use personal_blog_service.Auth.Jwt.{
  valid, failed, matched, decode_token, verify_refresh_token, create,
}
use personal_blog_service.Auth.Jwt.Tokens.{read-create}

module _ (p : Platform) (token : String) where
  open p use {crypto, config}

  compared_ok :
      (held session : UserSessionEntity)
      → matched p (some token) held ≡ valid session
      → (ok held ≡ ok session) × (token ≡ session.refresh_token)
  compared_ok held session h = ground (arith, eq_iff token held.refresh_token)

  -- What an accepted token was compared with.
  compared :
      (r : Result UserSessionEntity) (s : State p) (session : UserSessionEntity)
      → (let (q, t) = continue (λ held. pure (matched p (some token) held)) r s in
          caught (λ e. pure (failed e)) q t).0
        ≡ ok (valid session)
      → (r ≡ ok session) × (token ≡ session.refresh_token)
  compared (ok held) s session h = compared_ok held session (ok-injective h)
  compared (throw e) s session h = ground arith

  presented :
      (s : State p) (claims : Claims) (uid : String) (session : UserSessionEntity)
      → crypto.verify s.now (some token) config.jwt_secret_key ≡ ok claims
      → crypto.decrypt claims.uid config.pk_secret_key ≡ ok uid
      → (verify_refresh_token p (some token) s).0 ≡ ok (valid session)
      → ((get_user_session_entity_by_uid p uid s).0 ≡ ok session) × (token ≡ session.refresh_token)
  unfolding verify_refresh_token decode_token
  presented s claims uid session a b h =
      let (r, t) = get_user_session_entity_by_uid p uid s in compared r t session (rw (a, b) at h)

module _ (p : Platform) (laws : PlatformLaws p) where
  open p use {crypto, config}

  -- After a new pair of tokens was made for an existing user, no other token that names this user, even
  -- one that is signed well and not expired, is accepted as the refresh token.
  pub verify_refresh_token-revoked :
      (uid : String) (role : UserRole) (w : State p) (e : UserAuthEntity) (dto : JwtDto) (ms : ℕ)
      (token : String) (claims : Claims) (session : UserSessionEntity)
      → row_of p uid w ≡ some e
      → (create p uid role w).0 ≡ ok dto
      → token ≢ dto.refresh_token
      → let t = (create p uid role w).1 in
        let s = record t { now = t.now + ms } in
        crypto.verify s.now (some token) config.jwt_secret_key ≡ ok claims
        → crypto.decrypt claims.uid config.pk_secret_key ≡ ok uid
        → (verify_refresh_token p (some token) s).0 ≢ ok (valid session)
  verify_refresh_token-revoked uid role w e dto ms token claims session row made other good named
        h =
      let t = (create p uid role w).1 in
      let (answered, same) =
        presented p token (record t { now = t.now + ms }) claims uid session good named h in
      let is = read-create p laws uid role w e dto session ms row made answered in
      other (same ∙ ap (λ read. read.refresh_token) is)
