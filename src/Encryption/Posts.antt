-- ===== src/Encryption/Posts.antt =====
-- The posts in a response, and the way back of their encrypted keys.
use personal_blog_service.Common.{
  ℕ, ◌+◌, String, eq_iff, decimal, read_digits, read_digits-decimal, ◌≡◌, ◌≢◌, refl, ap, sym, ◌∙◌,
  All, Option, some, none, List, [], ◌∷◌, map, arith,
}
use personal_blog_service.Exec.{Result, ok}
use personal_blog_service.Auth.Platform.{Crypto}
use personal_blog_service.Utils.Pagination.{PaginationDto, PaginationMetaDto}
use personal_blog_service.Posts.Service.{PostDto}
use personal_blog_service.Encryption.Values.{
  JsValue, number, boolean, text, array, object, Elements, nil, cons, end, field, Instance, to_text,
  get,
}
use personal_blog_service.Encryption.{
  Metadata, encrypt_field, encrypt_object, encrypt_item, encrypt_items, encrypt_response,
}

-- The marks of the code.
abbrev pub marked : Metadata
marked = encrypt_field "PostDto" "postUid" (encrypt_field "PostDto" "postId" (λ class. []))

abbrev pub texts_of : List String → Elements
texts_of [] = nil
texts_of (t ∷ ts) = cons (text t) (texts_of ts)

-- The properties of a post; a date stands as its text.
abbrev pub of_post_dto : PostDto → JsValue
of_post_dto p = object (some "PostDto") (
    field "postId" (number p.post_id) (
      field "postUid" (text p.post_uid) (
        field "title" (text p.title) (
          field "writeDatetime" (text p.write_datetime) (
            field "contents" (text p.contents) (
              field "hits" (number p.hits) (
                field "postLikeNicknameList" (array (texts_of p.post_like_nickname_list)) end)))))))

abbrev pub of_post_dto_list : List PostDto → Elements
of_post_dto_list [] = nil
of_post_dto_list (p ∷ ps) = cons (of_post_dto p) (of_post_dto_list ps)

abbrev pub of_meta : PaginationMetaDto → JsValue
of_meta m = object (some "PaginationMetaDto") (
    field "total" (number m.total) (
      field "currentPage" (number m.current_page) (
        field "lastPage" (number m.last_page) (
          field "hasPreviousPage" (boolean m.has_previous_page)
            (field "hasNextPage" (boolean m.has_next_page) end)))))

abbrev pub of_pagination_dto : PaginationDto PostDto → Instance
of_pagination_dto page = record {
  class = some "PaginationDto";
  fields =
      field "data" (array (of_post_dto_list page.data_list))
        (field "paginationMeta" (of_meta page.pagination_meta) end);
}

-- What a client reads: the values under `key` of the objects in the list of a response.
abbrev pub values_at : String → Elements → List JsValue
values_at key nil = []
values_at key (cons (object class fs) vs) = get key fs ∷ values_at key vs
values_at key (cons _ vs) = values_at key vs

abbrev pub elements_of : JsValue → Elements
elements_of (array vs) = vs
elements_of _ = nil

abbrev pub listed_at : String → Option Instance → List JsValue
listed_at key none = []
listed_at key (some o) = values_at key (elements_of (get "data" o.fields))

zero_filled : (zero_text : String) → zero_text ≡ "0" → zero_text ≢ ""
zero_filled t h e = ground (arith, eq_iff "0" "")

pub decimal-filled : (n : ℕ) → decimal n ≢ ""
unfolding decimal
decimal-filled n e =
    let none_left : n ≡ 0 = sym (read_digits-decimal n) ∙ ap (read_digits 0) e in
    zero_filled (decimal 0) refl (ap decimal (sym none_left) ∙ e)

-- A reader of the values, to whom an encrypted text opens.
module _ (crypto : Crypto) (secret : String) (opened : JsValue → Result String)
    (opens : (salt : ℕ) (value : String)
      → value ≢ ""
      → opened (text (crypto.encrypt salt value secret)) ≡ ok value) where
  opened_id :
      (salt n : ℕ)
      → opened (text (crypto.encrypt salt (to_text (number n)) secret)) ≡ ok (decimal n)
  unfolding to_text
  opened_id salt n = opens salt (decimal n) (decimal-filled n)

  items_open :
      (ps : List PostDto) (n : ℕ)
      → map opened
          (values_at "postId" (encrypt_items crypto secret marked (of_post_dto_list ps) n).0)
        ≡ map (λ p. ok (decimal p.post_id)) ps
  unfolding encrypt_items encrypt_item encrypt_object
  items_open [] n = refl
  items_open (p ∷ ps) n = rw (opened_id n p.post_id, items_open ps (n + 1 + 1)) refl

  opened_uid :
      (salt : ℕ) (uid : String)
      → uid ≢ ""
      → opened (text (crypto.encrypt salt (to_text (text uid)) secret)) ≡ ok uid
  unfolding to_text
  opened_uid salt uid filled = opens salt uid filled

  owners_open :
      (ps : List PostDto) (n : ℕ)
      → All (λ p. p.post_uid ≢ "") ps
      → map opened
          (values_at "postUid" (encrypt_items crypto secret marked (of_post_dto_list ps) n).0)
        ≡ map (λ p. ok p.post_uid) ps
  unfolding encrypt_items encrypt_item encrypt_object
  owners_open [] n h = refl
  owners_open (p ∷ ps) n (filled, h) =
      rw (opened_uid (n + 1) p.post_uid filled, owners_open ps (n + 1 + 1) h) refl

  -- Every owner in a listing opens to the user that it was made for.
  pub encrypt_response-opened_owners :
      (page : PaginationDto PostDto) (n : ℕ)
      → All (λ p. p.post_uid ≢ "") page.data_list
      → map opened (
          listed_at "postUid"
            (encrypt_response crypto secret marked (some (of_pagination_dto page)) n).0)
        ≡ map (λ p. ok p.post_uid) page.data_list
  unfolding encrypt_response encrypt_object
  encrypt_response-opened_owners page n h = owners_open page.data_list n h

  -- Every id in a listing opens to the post that it was made for.
  pub encrypt_response-opened :
      (page : PaginationDto PostDto) (n : ℕ)
      → map opened (
          listed_at "postId"
            (encrypt_response crypto secret marked (some (of_pagination_dto page)) n).0)
        ≡ map (λ p. ok (decimal p.post_id)) page.data_list
  unfolding encrypt_response encrypt_object
  encrypt_response-opened page n = items_open page.data_list n
