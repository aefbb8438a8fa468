-- ===== src/Auth/Tests.antt =====
-- The authentication on the platform in memory: tests, and its theorems at concrete inputs.
use personal_blog_service.Common.{
  decimal, if◌then◌else◌, str_eq, ◌+◌, ◌≡◌, ◌≢◌, refl, String, Option, eq_refl, eq_iff, true, false,
  none, some, [], ◌∷◌, arith,
}
use personal_blog_service.Exec.{ok, throw, raise}
use personal_blog_service.Failure.Exceptions.{auth_invalid_password}
use personal_blog_service.Orm.Memory.{find_through}
use personal_blog_service.Auth.Service.{
  create_new_user, login, hashing_password, decode_credential_token, google_oauth_login,
}
use personal_blog_service.Auth.Google.{MadeFor, google_oauth_login-account}
use personal_blog_service.Auth.Joined.{login-create_new_user}
use personal_blog_service.Auth.Memory.{platform, platform_laws, ann, one}
use personal_blog_service.Auth.Platform.{
  admin, user, key_of, UserSessionEntity, JwtDto, State, Platform, PlatformLaws,
}
use personal_blog_service.Auth.Repository.{
  is_exist, save_user_auth_entity, get_user_auth_entity, session_of, with_session,
  get_user_session_entity_by_uid, update_user_auth_by_user_session_entity,
}
use personal_blog_service.Auth.Repository.Coherence.{row_of, get-update_session}
use personal_blog_service.Auth.Repository.Stale.{interleaved, reader, StoresReads, stale_session}
use personal_blog_service.Utils.CacheIds.{get_user_session_entity_cache_id}
use personal_blog_service.Auth.Jwt.{valid, create, verify_refresh_token, verify_access_token}
use personal_blog_service.Auth.Jwt.Tokens.{verify_refresh_token-create}
use personal_blog_service.Auth.Jwt.Rotation.{verify_refresh_token-revoked}
use personal_blog_service.Auth.Platform.{UserAuthRequestDto, UserAuthEntity}
use personal_blog_service.Auth.Guard.{Call, Route, bearer_token, admit, authenticate, can_activate}
use personal_blog_service.Auth.Guard.Entry.{Entered, can_activate-Entered}

abbrev renewed : UserSessionEntity
renewed = record { uid = "ann"; refresh_token = "new"; user_role = user }

get-update_session_example : renewed ≡ renewed
unfolding get_user_session_entity_by_uid update_user_auth_by_user_session_entity
    get_user_session_entity_cache_id
get-update_session_example =
    get-update_session platform platform_laws renewed one ann renewed 5000 refl refl refl

stores_through :
    (id k : String) (u : platform.users.State) (held : Option (Option UserAuthEntity))
    → held ≡ none
    → ((find_through key_of id k u held).0 ≡ ok (u.rows k))
      × ((find_through key_of id k u held).1.results id ≡ some (u.rows k))
stores_through id k u none h = (refl, ground (arith, eq_refl id))
stores_through id k u (some _) h = cc

stores : StoresReads platform
stores id ms k u h = stores_through id k u (u.results id) h

stale_session_example :
    let t =
      (update_user_auth_by_user_session_entity
        (interleaved platform (reader platform "ann" one))
        renewed
        one).1 in
    (session_of ann ≡ session_of ann) × (row_of platform "ann" t ≡ some (with_session renewed ann))
unfolding get_user_session_entity_by_uid get_user_session_entity_cache_id
    update_user_auth_by_user_session_entity
stale_session_example =
    stale_session platform platform_laws renewed stores one ann (session_of ann) refl refl refl

abbrev pair : JwtDto
pair = record { access_token = "ann"; refresh_token = "ann" }

verify_refresh_token-create_example :
    let t = (create platform "ann" user one).1 in
    (verify_refresh_token platform (some "ann") (record t { now = t.now + 5000 })).0
    ≡ ok (valid (session_of ann))
unfolding create update_user_auth_by_user_session_entity get_user_session_entity_by_uid
    get_user_session_entity_cache_id
verify_refresh_token-create_example =
    verify_refresh_token-create platform platform_laws "ann" user one ann pair (session_of ann) 5000
      refl refl (omega arith) refl

-- Ciphers that put one character in front, and do not look at it again.
abbrev untagged : String → String
untagged String.[] = ""
untagged (String.◌∷◌ c s) = s

abbrev tagged : Platform
tagged = record platform {
  crypto = record platform.crypto {
    encrypt = λ salt value secret. String.◌∷◌ "+" value;
    decrypt = λ value secret. ok (untagged value);
  };
}

tagged_laws : PlatformLaws tagged
tagged_laws = record {
  users = platform_laws.users;
  crypto = record {
    decrypt-encrypt = λ salt value secret. refl;
    verify-sign = λ signed now claims secret issuer subject lifetime h. refl;
  };
}

-- Ann's old refresh token is signed well, and no longer accepted.
verify_refresh_token-revoked_example :
    let t = (create tagged "ann" user one).1 in
    (verify_refresh_token tagged (some "-ann") (record t { now = t.now + 5000 })).0
    ≢ ok (valid (session_of ann))
unfolding create update_user_auth_by_user_session_entity
verify_refresh_token-revoked_example =
    verify_refresh_token-revoked tagged tagged_laws "ann" user one ann
      (record { access_token = "+ann"; refresh_token = "+ann" }) 5000 "-ann"
      (record { uid = "-ann" }) (session_of ann) refl refl (ground (arith, eq_iff "-ann" "+ann"))
      refl refl

-- A call with a forged trusted header and the two tokens of ann.
abbrev call : Call (State platform)
call = record {
  request = record {
    authenticated_user = some "root";
    authorization = some "Bearer ann";
    refresh_token = some "ann";
  };
  store = one;
}

abbrev writers : Route
writers = record { is_public = false; roles = some (user ∷ []) }

abbrev admins : Route
admins = record { is_public = false; roles = some (admin ∷ []) }

can_activate_ann :
    let r = can_activate platform writers call in
    (r.0 ≡ ok true) × (r.1.request.authenticated_user ≡ some "ann")
unfolding can_activate authenticate admit verify_access_token verify_refresh_token bearer_token
    get_user_session_entity_by_uid get_user_session_entity_cache_id
can_activate_ann = (refl, refl)

can_activate-admins :
    let r = can_activate platform admins call in
    (r.0 ≡ ok false) × (r.1.request.authenticated_user ≡ none)
unfolding can_activate authenticate admit verify_access_token verify_refresh_token bearer_token
    get_user_session_entity_by_uid get_user_session_entity_cache_id
can_activate-admins = (refl, refl)

can_activate-Entered_example : Entered platform writers call (ok true) (some "ann")
unfolding can_activate authenticate admit verify_access_token verify_refresh_token bearer_token
    get_user_session_entity_by_uid get_user_session_entity_cache_id
can_activate-Entered_example = can_activate-Entered platform writers call

-- Ann and bob have accounts, and ann's cookie comes with the refresh token of bob.
abbrev bob : UserAuthEntity
bob = record ann { uid = "bob"; refresh_token = "bob" }

abbrev two : State platform
two = record one {
  users = record {
    rows = λ j. if str_eq j "ann" then some ann else if str_eq j "bob" then some bob else none;
    results = λ j. none;
  };
}

abbrev mixed : Call (State platform)
mixed = record {
  request = record {
    authenticated_user = none;
    authorization = some "Bearer bob";
    refresh_token = some "ann";
  };
  store = two;
}

abbrev newcomer : UserAuthRequestDto
newcomer = record { uid = "bob"; password = "pw" }

abbrev tokens_of_bob : JwtDto
tokens_of_bob = record { access_token = "bob"; refresh_token = "bob" }

login-create_new_user_example :
    let t : State platform = record (create_new_user platform newcomer one).1 { now = 90000 } in
    login platform newcomer t
    ≡ (if str_eq
            (hashing_password platform "pw" (decimal 1000))
            (hashing_password platform "pw" (decimal 1000))
          then create platform "bob" user
          else raise auth_invalid_password)
        (record t { users = (platform.users.find_one "bob" t.users).1 })
unfolding create_new_user is_exist save_user_auth_entity create
    update_user_auth_by_user_session_entity get_user_session_entity_cache_id
login-create_new_user_example =
    login-create_new_user platform platform_laws newcomer tokens_of_bob one "pw" 90000 (some _) refl
      refl

wrong_password :
    (login platform
      (record { uid = "bob"; password = "guess" })
      (create_new_user platform newcomer one).1).0
    ≡ throw auth_invalid_password
unfolding create_new_user is_exist save_user_auth_entity create
    update_user_auth_by_user_session_entity get_user_session_entity_cache_id login
    get_user_auth_entity hashing_password decimal
wrong_password = refl

-- Bob has no account yet, and gets one.
google_oauth_login-account_example :
    (uid : String) × (e : UserAuthEntity) × (w : State platform) × MadeFor platform platform_laws
      "bob"
      (record { access_token = "bob"; refresh_token = "bob" })
      one
      (google_oauth_login platform "bob" one).1
      uid
      e
      w
unfolding google_oauth_login decode_credential_token is_exist save_user_auth_entity
    get_user_auth_entity create update_user_auth_by_user_session_entity
google_oauth_login-account_example =
    google_oauth_login-account platform platform_laws "bob"
      (record { access_token = "bob"; refresh_token = "bob" }) one refl
