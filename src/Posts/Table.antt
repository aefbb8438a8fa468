-- ===== src/Posts/Table.antt =====
-- The table POST as the repository relies on it: TypeORM over MySQL with its query-result cache, with
-- `posts` and the two caches as what it holds.
use personal_blog_service.Common.{
  ℕ, String, str_eq, ◌==◌, ◌≡◌, ◌⊎◌, Bool, true, not, ◌&&◌, Option, none, some, List, [], ◌∷◌, map,
  length, take, drop, select, if◌then◌else◌,
}
use personal_blog_service.Exec.{Result, ok}

-- POST, less the two timestamps that the database keeps for itself.
pub record PostEntity : Type 0 where
  pub post_id : ℕ
  pub post_uid : String
  pub title : String
  pub write_datetime : String
  pub contents : String
  pub hits : ℕ

-- The fields that an insert gives.
pub record NewPost : Type 0 where
  pub post_uid : String
  pub title : String
  pub contents : String

-- The condition on POST_UID; `none` is a query without a WHERE.
abbrev pub is_by : Option String → PostEntity → Bool
is_by none e = true
is_by (some uid) e = str_eq e.post_uid uid

-- The condition on POST_ID and POST_UID. Texts are compared exactly; the collation of the database,
-- which takes capitals for small letters, is not modelled.
abbrev pub is_of : ℕ → String → PostEntity → Bool
is_of post_id post_uid e = e.post_id == post_id && str_eq e.post_uid post_uid

-- What a query through the cache returns: the live cached result if there is one.
abbrev pub or_cached : {A : Type 0} → Option A → A → A
or_cached none fresh = fresh
or_cached (some held) fresh = held

-- A page of rows, in the order in which they come.
abbrev pub window : ℕ → ℕ → List PostEntity → List PostEntity
window count skip rows = take count (drop skip rows)

pub record PostTable : Type 1 where
  pub State : Type 0
  -- The committed rows by descending POST_ID.
  pub posts : State → List PostEntity
  -- The live results under a cache id: a page of rows, and their count.
  pub cached_rows : State → String → Option (List PostEntity)
  pub cached_count : State → String → Option ℕ
  -- findAndCount, ORDER BY POST_ID DESC: where, take, skip, cache id, milliseconds.
  pub find_and_count :
      Option String → ℕ → ℕ → String → ℕ → State → Result (List PostEntity × ℕ) × State
  pub find_one : ℕ → State → Result (Option PostEntity) × State
  pub insert : NewPost → State → Result (Unit {0}) × State
  -- UPDATE … SET … WHERE POST_ID = ? AND POST_UID = ?
  pub update : ℕ → String → (PostEntity → PostEntity) → State → Result (Unit {0}) × State
  -- DELETE … WHERE POST_ID = ? AND POST_UID = ?
  pub delete : ℕ → String → State → Result (Unit {0}) × State

abbrev pub first_of : ℕ → List PostEntity → Option PostEntity
first_of post_id [] = none
first_of post_id (e ∷ es) = if e.post_id == post_id then some e else first_of post_id es

abbrev pub map_where :
    (PostEntity → Bool) → (PostEntity → PostEntity) → List PostEntity → List PostEntity
map_where p f = map (λ e. if p e then f e else e)

-- A query whose promise is rejected is not described.
pub record PostTableLaws (t : PostTable) : Type 0 where
  pub find_and_count_ok :
      (where_uid : Option String) (count skip : ℕ) (id : String) (ms : ℕ) (s : t.State)
      (r : List PostEntity × ℕ)
      → (t.find_and_count where_uid count skip id ms s).0 ≡ ok r
      → r ≡ (
        or_cached (t.cached_rows s id) (window count skip (select (is_by where_uid) (t.posts s))),
        or_cached (t.cached_count s id) (length (select (is_by where_uid) (t.posts s))),
      )
  pub posts-find_and_count :
      (where_uid : Option String) (count skip : ℕ) (id : String) (ms : ℕ) (s : t.State)
      → t.posts (t.find_and_count where_uid count skip id ms s).1 ≡ t.posts s
  pub cached_rows-find_and_count :
      (where_uid : Option String) (count skip : ℕ) (id : String) (ms : ℕ) (s : t.State) (j : String)
      → (t.cached_rows (t.find_and_count where_uid count skip id ms s).1 j ≡ t.cached_rows s j)
        ⊎ (id ≡ j)
  pub cached_count-find_and_count :
      (where_uid : Option String) (count skip : ℕ) (id : String) (ms : ℕ) (s : t.State) (j : String)
      → (t.cached_count (t.find_and_count where_uid count skip id ms s).1 j ≡ t.cached_count s j)
        ⊎ (id ≡ j)
  pub find_one_ok :
      (post_id : ℕ) (s : t.State) (r : Option PostEntity)
      → (t.find_one post_id s).0 ≡ ok r
      → r ≡ first_of post_id (t.posts s)
  pub posts-find_one : (post_id : ℕ) (s : t.State) → t.posts (t.find_one post_id s).1 ≡ t.posts s
  -- The new row has the greatest id.
  pub posts-insert :
      (n : NewPost) (s : t.State)
      → (t.insert n s).0 ≡ ok tt
      → (e : PostEntity) × (t.posts (t.insert n s).1 ≡ e ∷ t.posts s)
        × (e.post_uid ≡ n.post_uid)
        × (e.title ≡ n.title)
        × (e.contents ≡ n.contents)
        × (e.hits ≡ 0)
        × (first_of e.post_id (t.posts s) ≡ none)
  pub posts-update :
      (post_id : ℕ) (post_uid : String) (f : PostEntity → PostEntity) (s : t.State)
      → (t.update post_id post_uid f s).0 ≡ ok tt
      → t.posts (t.update post_id post_uid f s).1 ≡ map_where (is_of post_id post_uid) f (t.posts s)
  pub posts-delete :
      (post_id : ℕ) (post_uid : String) (s : t.State)
      → (t.delete post_id post_uid s).0 ≡ ok tt
      → t.posts (t.delete post_id post_uid s).1
        ≡ select (λ e. not (is_of post_id post_uid e)) (t.posts s)
  -- A write leaves the cached results alone.
  pub cached-insert :
      (n : NewPost) (s : t.State) (id : String)
      → (t.cached_rows (t.insert n s).1 id ≡ t.cached_rows s id)
        × (t.cached_count (t.insert n s).1 id ≡ t.cached_count s id)
  pub cached-update :
      (post_id : ℕ) (post_uid : String) (f : PostEntity → PostEntity) (s : t.State) (id : String)
      → (t.cached_rows (t.update post_id post_uid f s).1 id ≡ t.cached_rows s id)
        × (t.cached_count (t.update post_id post_uid f s).1 id ≡ t.cached_count s id)
  pub cached-delete :
      (post_id : ℕ) (post_uid : String) (s : t.State) (id : String)
      → (t.cached_rows (t.delete post_id post_uid s).1 id ≡ t.cached_rows s id)
        × (t.cached_count (t.delete post_id post_uid s).1 id ≡ t.cached_count s id)
