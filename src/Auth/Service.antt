-- ===== src/Auth/Service.antt =====
-- src/user/service/user-auth.service.ts: joining, logging in and refreshing.
use personal_blog_service.Common.{
  ℕ, zero, suc, String, ◌⊕◌, str_eq, decimal, Option, none, some, if◌then◌else◌,
}
use personal_blog_service.Failure.Exceptions.{
  auth_invalid_oauth_token, auth_invalid_password, auth_invalid_refresh_token,
  auth_refresh_token_required, user_already_exists,
}
use personal_blog_service.Exec.{
  Result, ok, throw, pure, raise, lift, gets, catch_error, ◌>>=◌, ◌>>◌,
}
use personal_blog_service.Auth.Platform.{
  user, UserAuthEntity, UserSessionEntity, UserAuthRequestDto, JwtDto, Platform, Action,
}
use personal_blog_service.Auth.Repository.{save_user_auth_entity, get_user_auth_entity, is_exist}
use personal_blog_service.Auth.Jwt.{
  Verified, valid, failed, create, verify_refresh_token, reissue_jwt_by_user_session_entity,
}

module _ (p : Platform) where
  open p use {crypto}

  -- The loop of `hashingPassword`, by the rounds that are left.
  stretch : ℕ → String → String → String
  stretch zero password salt = password
  stretch (suc rounds) password salt = stretch rounds (crypto.sha256 (password ⊕ salt)) salt

  unfoldable pub hashing_password : String → String → String
  unfolding stretch
  hashing_password password salt = stretch 3 password salt

  -- The row of a new account.
  abbrev pub new_user : String → String → String → String → UserAuthEntity
  new_user uid password salt social_yn = record {
    uid = uid;
    password = password;
    salt = salt;
    social_yn = social_yn;
    refresh_token = "";
    user_role = user;
  }

  -- The rest of `createNewUser`, for a uid that is free.
  abbrev pub register : UserAuthRequestDto → Action p JwtDto
  register dto = do
    now ← gets (λ s. s.now)
    let salt = decimal now
    save_user_auth_entity p (new_user dto.uid (hashing_password dto.password salt) salt "N")
    create p dto.uid user

  unfoldable pub create_new_user : UserAuthRequestDto → Action p JwtDto
  create_new_user dto = do
    exists ← is_exist p dto.uid
    (if exists then raise (user_already_exists dto.uid) else register dto)

  unfoldable pub login : UserAuthRequestDto → Action p JwtDto
  login dto = do
    e ← get_user_auth_entity p dto.uid
    (if str_eq (hashing_password dto.password e.salt) e.password
        then create p e.uid e.user_role
        else raise auth_invalid_password)

  -- `decodeCredentialToken`: whatever the library throws becomes one exception.
  unfoldable pub decode_credential_token : String → Action p (Option String)
  decode_credential_token token =
      catch_error (λ _. raise (auth_invalid_oauth_token (some "This token is not allowed.")))
        (do now ← gets (λ s. s.now); lift (crypto.verify_google now token))

  -- `!payload?.email`: an empty text is no email.
  abbrev pub email_of : Option String → Result String
  email_of none = throw (auth_invalid_oauth_token (some "Invalid Google token payload."))
  email_of (some email) =
      if str_eq email ""
      then throw (auth_invalid_oauth_token (some "Invalid Google token payload."))
      else ok email

  unfoldable pub google_oauth_login : String → Action p JwtDto
  google_oauth_login credential_token = do
    payload ← decode_credential_token credential_token
    uid ← lift (email_of payload)
    exists ← is_exist p uid
    (if exists then pure tt else save_user_auth_entity p (new_user uid "-" "-" "Y"))
    e ← get_user_auth_entity p uid
    create p e.uid e.user_role

  -- The session or the exception of `refresh`.
  abbrev pub session_or_throw : Verified UserSessionEntity → Result UserSessionEntity
  session_or_throw (valid session) = ok session
  session_or_throw (failed _) = throw (auth_invalid_refresh_token none)

  abbrev pub present : Option String → Result String
  present none = throw auth_refresh_token_required
  present (some token) = if str_eq token "" then throw auth_refresh_token_required else ok token

  unfoldable pub refresh : Option String → Action p JwtDto
  refresh refresh_token = do
    token ← lift (present refresh_token)
    verified ← verify_refresh_token p (some token)
    session ← lift (session_or_throw verified)
    reissue_jwt_by_user_session_entity p session
