-- ===== src/Controllers/Links.antt =====
-- The ids in a listing, followed as paths.
use personal_blog_service.Common.{
  All, ◌≢◌, ℕ, String, decimal, ◌≡◌, refl, ap, sym, ◌∙◌, some, List, [], ◌∷◌, map,
}
use personal_blog_service.Exec.{Result, ok, throw, lift, ◌>>=◌}
use personal_blog_service.Orm.{Table}
use personal_blog_service.UserInfo.Repository.{UserInfoEntity}
use personal_blog_service.Utils.Cipher.{
  Cipher, CipherLaws, with_cipher, encrypt_primary_key, decrypt_primary_key,
}
use personal_blog_service.Pipe.{transform}
use personal_blog_service.Pipe.Keys.{kept}
use personal_blog_service.Likes.Repository.{LikeTable}
use personal_blog_service.Utils.Pagination.{PaginationDto}
use personal_blog_service.Posts.Table.{PostTable}
use personal_blog_service.Posts.Service.{
  PostDto, Action, get_post_by_post_id, get_post_page_list_by_post_uid,
}
use personal_blog_service.Encryption.{encrypt_response}
use personal_blog_service.Encryption.Values.{JsValue, text, to_text}
use personal_blog_service.Encryption.Posts.{
  marked, of_pagination_dto, listed_at, encrypt_response-opened, encrypt_response-opened_owners,
}
use personal_blog_service.Controllers.{Pipes, parsed, post_id_of}
use personal_blog_service.Controllers.Posts.{get_post, get_user_posts}

map-map :
    {A B C : Type 0} (g : B → C) (f : A → B) (xs : List A)
    → map g (map f xs) ≡ map (λ x. g (f x)) xs
map-map g f [] = refl
map-map g f (x ∷ xs) = ap (λ ys. g (f x) ∷ ys) (map-map g f xs)

map_cong :
    {A B : Type 0} (f g : A → B) (xs : List A) (h : (x : A) → f x ≡ g x) → map f xs ≡ map g xs
map_cong f g [] h = refl
map_cong f g (x ∷ xs) h = rw (h x, map_cong f g xs h) refl

-- The router of the framework: what it hands to a route for a text in the place of a parameter, or an
-- error, as for a text with a slash in it.
abbrev pub Router : Type 0
Router = String → Result String

-- A text that encodeURIComponent has made is one segment of a path, and is decoded once.
pub record RouterLaws (c : Cipher) (router : Router) : Type 0 where
  pub param-encode : (value : String) → router (c.encode_uri_component value) ≡ ok value

-- The pipes with the ciphers of the repository.
abbrev pub piped_by : Cipher → Pipes → Pipes
piped_by c pipes = record pipes { crypto = with_cipher c pipes.crypto }

module _ (c : Cipher) (router : Router) (given : Pipes) (t : PostTable) (likes : LikeTable)
    (users : Table UserInfoEntity) where
  -- The route GET /posts/:postId at a value of a response.
  abbrev pub follow : JsValue → Action t likes users PostDto
  follow v = lift (router (to_text v)) >>= get_post (piped_by c given) t likes users

  -- The route GET /posts/users/:postUid at a value of a response.
  abbrev pub follow_owner : ℕ → JsValue → Action t likes users (PaginationDto PostDto)
  follow_owner page v =
      lift (router (to_text v)) >>= λ uid. get_user_posts (piped_by c given) t likes users uid page

  -- What the first pipe makes of what the router hands over.
  abbrev decrypted : Result String → Result String
  decrypted (ok param) = transform (with_cipher c given.crypto) given.pk_secret_key param
  decrypted (throw e) = throw e

  abbrev opened : JsValue → Result String
  opened v = decrypted (router (to_text v))

  opened-encrypt :
      (laws : CipherLaws c) (routes : RouterLaws c router) (salt : ℕ) (value : String)
      → value ≢ ""
      → opened (text (encrypt_primary_key c salt value given.pk_secret_key)) ≡ ok value
  unfolding encrypt_primary_key decrypt_primary_key transform to_text
  opened-encrypt laws routes salt value filled =
      rw
        (
          routes.param-encode (c.aes_encrypt salt value given.pk_secret_key),
          laws.decode-aes_encrypt salt value given.pk_secret_key,
          laws.aes_decrypt-aes_encrypt salt value given.pk_secret_key,
          kept given.crypto given.pk_secret_key value filled,
        )
        refl

  -- What the route does with what the first pipe answers.
  abbrev after_pipe : Result String → Action t likes users PostDto
  after_pipe r = lift (parsed given.parse_int r) >>= get_post_by_post_id t likes users

  abbrev after_owner : ℕ → Result String → Action t likes users (PaginationDto PostDto)
  after_owner page r = lift r >>= λ uid. get_post_page_list_by_post_uid t likes users uid page

  -- A route at the values of a response, by what its first pipe makes of each.
  piped :
      {A C : Type 0} (route : JsValue → C) (rest : Result String → C) (known : A → Result String)
      (vs : List JsValue) (xs : List A)
      → ((v : JsValue) → route v ≡ rest (opened v))
      → map opened vs ≡ map known xs
      → map route vs ≡ map (λ x. rest (known x)) xs
  piped route rest known vs xs split opens =
      map_cong route (λ v. rest (opened v)) vs split
      ∙ sym (map-map rest opened vs)
      ∙ ap (map rest) opens
      ∙ map-map rest known xs

  owner_split :
      (page : ℕ) (param : Result String)
      → (lift param >>= λ uid. get_user_posts (piped_by c given) t likes users uid page)
        ≡ after_owner page (decrypted param)
  unfolding get_user_posts
  owner_split page (ok param) = refl
  owner_split page (throw e) = refl

  post_split :
      (param : Result String)
      → (lift param >>= get_post (piped_by c given) t likes users) ≡ after_pipe (decrypted param)
  unfolding get_post post_id_of
  post_split (ok param) = refl
  post_split (throw e) = refl

  -- The keys under a name in the response of a listing.
  abbrev pub keys_at : String → PaginationDto PostDto → ℕ → List JsValue
  keys_at name page salt =
      listed_at name
        (encrypt_response (with_cipher c given.crypto) given.pk_secret_key marked
          (some (of_pagination_dto page)) salt).0

  -- Every encrypted id in a listing, put into the path of a request, reaches the post that it was made
  -- for, and every encrypted owner the posts of this user, if the router hands over a text that
  -- encodeURIComponent has made as it was before, ParseIntPipe reads the decimal text of a number as
  -- the number, and no owner is empty.
  pub follow-encrypt_response :
      (laws : CipherLaws c) (routes : RouterLaws c router)
      (reads : (n : ℕ) → given.parse_int (decimal n) ≡ ok n) (page : PaginationDto PostDto)
      (salt number : ℕ)
      → All (λ p. p.post_uid ≢ "") page.data_list
      → (map follow (keys_at "postId" page salt)
          ≡ map (λ p. get_post_by_post_id t likes users p.post_id) page.data_list)
        × (map (follow_owner number) (keys_at "postUid" page salt)
            ≡ map
                (λ p. get_post_page_list_by_post_uid t likes users p.post_uid number)
                page.data_list)
  follow-encrypt_response laws routes reads page salt number filled =
      let secret = given.pk_secret_key in
      let crypto = with_cipher c given.crypto in
      let opens = opened-encrypt laws routes in
      (
        piped follow after_pipe (λ (p : PostDto). ok (decimal p.post_id)) _ page.data_list
              (λ v. post_split (router (to_text v)))
              (encrypt_response-opened crypto secret opened opens page salt)
            ∙ map_cong (λ (p : PostDto). after_pipe (ok (decimal p.post_id)))
                (λ p. get_post_by_post_id t likes users p.post_id) page.data_list
                (λ p. ap (λ r. lift r >>= get_post_by_post_id t likes users) (reads p.post_id)),
        piped (follow_owner number) (after_owner number) (λ (p : PostDto). ok p.post_uid) _
            page.data_list (λ v. owner_split number (router (to_text v)))
            (encrypt_response-opened_owners crypto secret opened opens page salt filled),
      )
