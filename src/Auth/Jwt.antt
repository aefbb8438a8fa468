-- ===== src/Auth/Jwt.antt =====
-- src/user/service/jwt.service.ts: tokens are signed, stored and verified. The methods that return
-- an Error instead of throwing it return a `Verified`.
pub mod Tokens
pub mod Rotation
use personal_blog_service.Common.{
  ℕ, String, str_eq, Bool, true, false, Option, none, some, if◌then◌else◌,
}
use personal_blog_service.Failure.Exceptions.{Thrown, auth_invalid_refresh_token}
use personal_blog_service.Exec.{Result, ok, throw, pure, lift, gets, catch_error, ◌>>=◌, ◌>>◌}
use personal_blog_service.Auth.Platform.{
  UserRole, UserSessionEntity, JwtDto, Claims, Platform, Action, fresh_salt,
}
use personal_blog_service.Auth.Repository.{
  get_user_session_entity_by_uid, update_user_auth_by_user_session_entity,
}

pub data TokenType : Type 0 where
  access refresh : TokenType

-- What a method that catches everything returns: its value, or the error as a value.
pub data Verified (A : Type 0) : Type 0 where
  valid : A → Verified A
  failed : Thrown → Verified A

-- refreshToken !== userSessionEntity.refreshToken
abbrev pub is_token : Option String → String → Bool
is_token none stored = false
is_token (some t) stored = str_eq t stored

module _ (p : Platform) where
  open p use {crypto, config}

  -- tokenType === ACCESS_TOKEN ? accessTokenExpireTime : refreshTokenExpireTime
  abbrev pub lifetime : TokenType → ℕ
  lifetime access = config.access_token_expire_time
  lifetime refresh = config.refresh_token_expire_time

  unfoldable pub generate_token : String → TokenType → Action p String
  generate_token uid token_type = do
    salt ← fresh_salt p
    let encrypted = crypto.encrypt salt uid config.pk_secret_key
    now ← gets (λ s. s.now)
    pure (
        crypto.sign now (record { uid = encrypted }) config.jwt_secret_key config.jwt_issuer
          encrypted (lifetime token_type))

  unfoldable pub decode_token : Option String → Action p Claims
  decode_token token = do
    now ← gets (λ s. s.now)
    lift (crypto.verify now token config.jwt_secret_key)

  unfoldable pub create : String → UserRole → Action p JwtDto
  unfolding generate_token
  create uid user_role = do
    access_token ← generate_token uid access
    refresh_token ← generate_token uid refresh
    update_user_auth_by_user_session_entity p
        (record { uid = uid; refresh_token = refresh_token; user_role = user_role })
    pure (record { access_token = access_token; refresh_token = refresh_token })

  -- The session of the user that a token names.
  abbrev pub session_of_token : Option String → Action p UserSessionEntity
  session_of_token token = do
    claims ← decode_token token
    uid ← lift (crypto.decrypt claims.uid config.pk_secret_key)
    get_user_session_entity_by_uid p uid

  unfoldable pub verify_access_token : Option String → Action p (Verified (Unit {0}))
  unfolding decode_token
  verify_access_token token =
      catch_error (λ e. pure (failed e)) (do session_of_token token; pure (valid tt))

  -- The stored refresh token has to be the one that is presented.
  abbrev pub matched : Option String → UserSessionEntity → Verified UserSessionEntity
  matched token session =
      if is_token token session.refresh_token
      then valid session
      else failed (auth_invalid_refresh_token (some "Refresh Token does not match!"))

  unfoldable pub verify_refresh_token : Option String → Action p (Verified UserSessionEntity)
  unfolding decode_token
  verify_refresh_token token =
      catch_error (λ e. pure (failed e))
        (do session ← session_of_token token; pure (matched token session))

  unfoldable pub reissue_jwt_by_user_session_entity : UserSessionEntity → Action p JwtDto
  reissue_jwt_by_user_session_entity session = create session.uid session.user_role
