-- ===== src/Auth/Jwt/Tokens.antt =====
-- What a verified refresh token says, and that a pair of tokens that was just made is good.
use personal_blog_service.Common.{
  ℕ, ◌+◌, ◌≤◌, String, eq_refl, ◌≡◌, refl, ◌∙◌, sym, ap, true, Option, some, arith,
}
use personal_blog_service.Exec.{
  Result, ok, throw, pure, continue, continue-ok, ok-injective, caught,
}
use personal_blog_service.Auth.Platform.{
  UserAuthEntity, UserRole, UserSessionEntity, JwtDto, Claims, Platform, PlatformLaws, State,
}
use personal_blog_service.Auth.Repository.{
  with_session, get_user_session_entity_by_uid, update_user_auth_by_user_session_entity,
}
use personal_blog_service.Auth.Repository.Coherence.{
  row_of, drop, write, updated, get-update_session,
}
use personal_blog_service.Auth.Jwt.{
  valid, failed, is_token, matched, verify_refresh_token, session_of_token, lifetime, create,
  refresh,
}

module _ (p : Platform) (token : Option String) where
  matched-is_token :
      (held session : UserSessionEntity)
      → matched p token held ≡ valid session
      → is_token token session.refresh_token ≡ true
  matched-is_token held session h = ground arith

  verdict_matched :
      (r : Result UserSessionEntity) (s : State p) (session : UserSessionEntity)
      → (let (q, t) = continue (λ held. pure (matched p token held)) r s in
          caught (λ e. pure (failed e)) q t).0
        ≡ ok (valid session)
      → is_token token session.refresh_token ≡ true
  verdict_matched (ok held) s session h = matched-is_token held session (ground arith)
  verdict_matched (throw e) s session h = ground arith

  -- A refresh token is accepted only if the session stores this very token.
  pub verify_refresh_token_matched :
      (s : State p) (session : UserSessionEntity)
      → (verify_refresh_token p token s).0 ≡ ok (valid session)
      → is_token token session.refresh_token ≡ true
  unfolding verify_refresh_token
  verify_refresh_token_matched s session h =
      let (r, t) = session_of_token p token s in verdict_matched r t session h

module _ (p : Platform) (laws : PlatformLaws p) where
  open p use {crypto, config}

  -- An update takes no time.
  same_time :
      (session : UserSessionEntity) (r : Result (Unit {0})) (s : State p)
      → (continue (λ _. write p session) r s).1.now ≡ s.now
  same_time session (ok _) s = refl
  same_time session (throw _) s = refl

  now-update :
      (session : UserSessionEntity) (s : State p)
      → (update_user_auth_by_user_session_entity p session s).1.now ≡ s.now
  unfolding update_user_auth_by_user_session_entity
  now-update session s = same_time session (drop p session s).0 (drop p session s).1

  -- A query of the session was answered for a token that names its user and is its refresh token.
  accepted :
      (token : String) (s : State p) (claims : Claims) (session read : UserSessionEntity)
      → crypto.verify s.now (some token) config.jwt_secret_key ≡ ok claims
      → crypto.decrypt claims.uid config.pk_secret_key ≡ ok session.uid
      → (get_user_session_entity_by_uid p session.uid s).0 ≡ ok read
      → read ≡ session
      → session.refresh_token ≡ token
      → (verify_refresh_token p (some token) s).0 ≡ ok (valid session)
  unfolding verify_refresh_token
  accepted token s claims session read a b c d e = rw (a, b, c, d, e, eq_refl token) refl

  module _ (uid : String) (role : UserRole) (w : State p) where
    -- The payload, the refresh token and the session that `create` makes.
    claims : Claims
    claims = record { uid = crypto.encrypt (w.entropy + 1) uid config.pk_secret_key }

    token : String
    unfolding claims
    token =
        crypto.sign w.now claims config.jwt_secret_key config.jwt_issuer claims.uid
          (lifetime p refresh)

    session : UserSessionEntity
    session = record { uid = uid; refresh_token = token; user_role = role }

    stored : Result (Unit {0}) × State p
    stored =
        update_user_auth_by_user_session_entity p session (record w { entropy = w.entropy + 1 + 1 })

    created :
        (dto : JwtDto)
        → (create p uid role w).0 ≡ ok dto
        → (stored.0 ≡ ok tt) × (dto.refresh_token ≡ token) × ((create p uid role w).1 ≡ stored.1)
    unfolding create stored session token claims
    created dto h =
        let (_, a, b, c) = continue-ok (λ _. pure _) stored.0 stored.1 dto h in
        (a, sym (ap (λ d. d.refresh_token) (ok-injective b)), c)

    -- The row after a pair of tokens was made.
    pub row-create :
        (e : UserAuthEntity) (dto : JwtDto)
        → row_of p uid w ≡ some e
        → (create p uid role w).0 ≡ ok dto
        → row_of p uid (create p uid role w).1
          ≡ some (
              with_session
                (record { uid = uid; refresh_token = dto.refresh_token; user_role = role })
                e)
    unfolding stored session token claims
    row-create e dto row made =
        let (done, same, after) = created dto made in
        let s = record w { entropy = w.entropy + 1 + 1 } in
        let (_, new) = updated p laws session s e row done in
        rw same (ap (row_of p uid) after ∙ new)

    -- The session that is read after a pair of tokens was made.
    pub read-create :
        (e : UserAuthEntity) (dto : JwtDto) (read : UserSessionEntity) (ms : ℕ)
        → row_of p uid w ≡ some e
        → (create p uid role w).0 ≡ ok dto
        → let t = (create p uid role w).1 in
          (get_user_session_entity_by_uid p uid (record t { now = t.now + ms })).0 ≡ ok read
          → read ≡ record { uid = uid; refresh_token = dto.refresh_token; user_role = role }
    unfolding stored session token claims
    read-create e dto read ms row made answered =
        let (done, same, after) = created dto made in
        let s = record w { entropy = w.entropy + 1 + 1 } in
        let t = (create p uid role w).1 in
        rw same (
          get-update_session p laws session s e read (t.now + ms) row done (
            ap (λ u. (get_user_session_entity_by_uid p uid (record u { now = t.now + ms })).0)
              (sym after)
            ∙ answered))

    -- The refresh token of a pair that was made for an existing user is accepted until its last second,
    -- once the query of the session is answered, and names the session it was made for.
    pub verify_refresh_token-create :
        (e : UserAuthEntity) (dto : JwtDto) (read : UserSessionEntity) (ms : ℕ)
        → row_of p uid w ≡ some e
        → (create p uid role w).0 ≡ ok dto
        → ms + 1000 ≤ config.refresh_token_expire_time
        → let t = (create p uid role w).1 in
          (get_user_session_entity_by_uid p uid (record t { now = t.now + ms })).0 ≡ ok read
          → (verify_refresh_token p (some dto.refresh_token) (record t { now = t.now + ms })).0
            ≡ ok (valid (record { uid = uid; refresh_token = dto.refresh_token; user_role = role }))
    unfolding stored session token claims
    verify_refresh_token-create e dto read ms row made early answered =
        let (done, same, after) = created dto made in
        let s = record w { entropy = w.entropy + 1 + 1 } in
        let t = (create p uid role w).1 in
        let then : t.now ≡ w.now = ap (λ u. u.now) after ∙ now-update session s in
        rw same (
          accepted token (record t { now = t.now + ms }) claims session read
            (rw then (
              laws.crypto.verify-sign w.now (w.now + ms) claims config.jwt_secret_key
                config.jwt_issuer claims.uid config.refresh_token_expire_time (omega arith)))
            (laws.crypto.decrypt-encrypt (w.entropy + 1) uid config.pk_secret_key) answered
            (get-update_session p laws session s e read (t.now + ms) row done (
              ap (λ u. (get_user_session_entity_by_uid p uid (record u { now = t.now + ms })).0)
                (sym after)
              ∙ answered))
            refl)
