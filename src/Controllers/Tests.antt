-- ===== src/Controllers/Tests.antt =====
-- The routes on posts in memory.
use personal_blog_service.Common.{
  arith, String, ◌==◌, if◌then◌else◌, eq_iff, ◌+◌, true, ℕ, read_digits-decimal, ◌≡◌, refl, map,
  false, ap, none, some, ◌∷◌, [],
}
use Prim.Native.Char.{code}
use personal_blog_service.Exec.{Result, ok, throw}
use personal_blog_service.Auth.Memory.{platform, platform_laws, one}
use personal_blog_service.Likes.Memory.{likes, users}
use personal_blog_service.Posts.Memory.{table}
use personal_blog_service.Controllers.Memory.{pipes, site}
use personal_blog_service.Posts.Service
use personal_blog_service.Posts.Service.{
  PostDto, State, get_post_by_post_id, get_post_page_list_by_post_uid,
}
use personal_blog_service.Posts.Repository
use personal_blog_service.Auth.Platform as Auth
use personal_blog_service.Auth.Platform.{UserAuthRequestDto, JwtDto, user}
use personal_blog_service.Auth.Repository.{
  is_exist, save_user_auth_entity, get_user_session_entity_by_uid,
  update_user_auth_by_user_session_entity,
}
use personal_blog_service.Auth.Jwt.{valid, create, verify_refresh_token}
use personal_blog_service.Auth.Service.{create_new_user}
use personal_blog_service.Utils.CacheIds.{get_user_session_entity_cache_id}
use personal_blog_service.Controllers.Cookie
use personal_blog_service.Controllers.Cookie.{CookieConfig, Cookie, Responding}
use personal_blog_service.Controllers.Accounts.{join}
use personal_blog_service.Controllers.Sessions.{verify_refresh_token-join}
use personal_blog_service.Controllers.Links.{
  Router, RouterLaws, follow, follow_owner, keys_at, follow-encrypt_response,
}
use personal_blog_service.Utils.Cipher.{Cipher, CipherLaws}
use personal_blog_service.Failure.Exceptions.{http, text}
use personal_blog_service.Utils.Pagination.{PaginationDto}
use personal_blog_service.Pipe.{transform}
use personal_blog_service.Controllers.{no_caller, post_id_of, authenticated_user_validation}
use personal_blog_service.Controllers.Posts.{delete_post}
use personal_blog_service.Controllers.Callers.{deletes, serve}

abbrev shown_post : ℕ → PostDto
shown_post post_id = record {
  post_id = post_id;
  post_uid = "ann";
  title = "Hello";
  write_datetime = "2026-01-01 00:00:00";
  contents = "World";
  hits = 0;
  post_like_nickname_list = "Bob" ∷ [];
}

abbrev page : PaginationDto PostDto
page = record {
  data_list = shown_post 12 ∷ shown_post 7 ∷ [];
  pagination_meta = record {
    total = 2;
    current_page = 1;
    last_page = 1;
    has_previous_page = false;
    has_next_page = false;
  };
}

-- Ciphers that put one character in front, and an encoding that puts a percent sign there.
abbrev tail_of : String → String
tail_of String.[] = ""
tail_of (String.◌∷◌ c s) = s

abbrev decoded : Result String → String → Result String
decoded other String.[] = other
decoded other (String.◌∷◌ c s) = if code c == b'%' then ok s else other

abbrev cipher : Cipher
cipher = record {
  aes_encrypt = λ salt value secret. String.◌∷◌ "+" value;
  aes_decrypt = λ value secret. ok (tail_of value);
  encode_uri_component = λ value. String.◌∷◌ "%" value;
  decode_uri_component = λ value. decoded (ok value) value;
}

cipher_laws : CipherLaws cipher
cipher_laws = record {
  aes_decrypt-aes_encrypt = λ salt value secret. refl;
  decode-encode = λ value. refl;
  decode-aes_encrypt = λ salt value secret. refl;
}

-- A router that knows encoded texts only.
abbrev router : Router
router value = decoded (throw (http 404 (text "Cannot GET"))) value

router_laws : RouterLaws cipher router
router_laws = record { param-encode = λ value. refl }

follow-encrypt_response_example :
    (map
        (follow cipher router pipes table likes users)
        (keys_at cipher router pipes table likes users "postId" page 3)
      ≡ get_post_by_post_id table likes users 12 ∷ get_post_by_post_id table likes users 7 ∷ [])
    × (map
          (follow_owner cipher router pipes table likes users 2)
          (keys_at cipher router pipes table likes users "postUid" page 3)
        ≡ get_post_page_list_by_post_uid table likes users "ann" 2
          ∷ get_post_page_list_by_post_uid table likes users "ann" 2
          ∷ [])
follow-encrypt_response_example =
    follow-encrypt_response cipher router pipes table likes users cipher_laws router_laws
      (λ n. ap ok (read_digits-decimal n)) page 3 2
      ((λ e. ground (arith, eq_iff "ann" "")), ((λ e. ground (arith, eq_iff "ann" "")), tt))

-- The caller without a name, and ann at the post of bob.
nameless : serve pipes table likes users none (deletes "1") site ≡ (throw no_caller, site)
unfolding delete_post authenticated_user_validation
nameless = refl

not_hers : (serve pipes table likes users (some "ann") (deletes "2") site).1 ≡ site
unfolding delete_post authenticated_user_validation post_id_of transform Service.delete_post
    Repository.delete_post
not_hers = refl

abbrev newcomer : UserAuthRequestDto
newcomer = record { uid = "bob"; password = "pw" }

abbrev tokens : JwtDto
tokens = record { access_token = "bob"; refresh_token = "bob" }

abbrev cookies : CookieConfig
cookies = record { cookie_max_age = 86400000; cookie_secure = true; cookie_same_site = "strict" }

abbrev before : Responding (Auth.State platform)
before = record { cookies = []; store = one }

verify_refresh_token-join_example :
    let r' = (join platform cookies newcomer before).1 in
    let later : Auth.State platform = record r'.store { now = r'.store.now + 5000 } in
    (cookie : Cookie) × (r'.cookies ≡ cookie ∷ [])
    × (cookie.name ≡ "refreshToken")
    × ((verify_refresh_token platform (some cookie.value) later).0
        ≡ ok (valid (record { uid = "bob"; refresh_token = cookie.value; user_role = user })))
unfolding join create_new_user is_exist save_user_auth_entity create
    update_user_auth_by_user_session_entity get_user_session_entity_by_uid
    get_user_session_entity_cache_id Cookie.intercept Cookie.set_cookie
verify_refresh_token-join_example =
    verify_refresh_token-join platform platform_laws newcomer tokens cookies before
      (record { uid = "bob"; refresh_token = "bob"; user_role = user }) 5000 refl
      (λ e. ground (arith, eq_iff "bob" "")) (omega arith) refl
