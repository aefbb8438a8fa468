-- ===== src/Orm.antt =====
-- TypeORM over MySQL with its query-result cache, as the repositories rely on it: no part of the
-- repository, so a table is a record of queries, with `row` and `cached` as what it holds.
pub mod Memory
use personal_blog_service.Common.{
  ℕ, String, str_eq, ◌≡◌, ◌⊎◌, Bool, Option, none, some, if◌then◌else◌,
}
use personal_blog_service.Exec.{Result, ok}
use personal_blog_service.Redis.{is_absent}
use personal_blog_service.Common.{not}

-- A table with a text as its primary key. A query can fail with an error of the driver.
pub record Table (Row : Type 0) : Type 1 where
  pub State : Type 0
  -- The committed row of a key.
  pub row : State → String → Option Row
  -- The live result under a cache id; the inner `none` is a cached empty result.
  pub cached : State → String → Option (Option Row)
  -- SELECT … WHERE key = ?
  pub find_one : String → State → Result (Option Row) × State
  -- The same with `cache: { id, milliseconds }`: cache id, milliseconds, key.
  pub find_one_cached : String → ℕ → String → State → Result (Option Row) × State
  pub exist : String → State → Result Bool × State
  pub insert : Row → State → Result (Unit {0}) × State
  -- UPDATE … SET … WHERE key = ?
  pub update : String → (Row → Row) → State → Result (Unit {0}) × State
  pub delete : String → State → Result (Unit {0}) × State
  -- queryResultCache?.remove([id])
  pub remove_cached : String → State → Result (Unit {0}) × State

abbrev pub map_row : {Row : Type 0} → (Row → Row) → Option Row → Option Row
map_row f none = none
map_row f (some r) = some (f r)

-- What a query through the cache returns: the cached result if there is one.
abbrev pub through : {Row : Type 0} → Option (Option Row) → Option Row → Option Row
through none fresh = fresh
through (some held) fresh = held

-- `key` reads the primary key of a row. A query whose promise is rejected is not described, but
-- that it commits nothing and caches nothing.
pub record TableLaws {Row : Type 0} (t : Table Row) (key : Row → String) : Type 0 where
  pub find_one_ok :
      (k : String) (s : t.State) (r : Option Row) → (t.find_one k s).0 ≡ ok r → r ≡ t.row s k
  pub row-find_one :
      (k : String) (s : t.State) (j : String) → t.row (t.find_one k s).1 j ≡ t.row s j
  pub cached-find_one :
      (k : String) (s : t.State) (id : String) → t.cached (t.find_one k s).1 id ≡ t.cached s id
  pub find_one_cached_ok :
      (id : String) (ms : ℕ) (k : String) (s : t.State) (r : Option Row)
      → (t.find_one_cached id ms k s).0 ≡ ok r
      → r ≡ through (t.cached s id) (t.row s k)
  pub row-find_one_cached :
      (id : String) (ms : ℕ) (k : String) (s : t.State) (j : String)
      → t.row (t.find_one_cached id ms k s).1 j ≡ t.row s j
  -- The result is stored under the id, or the cache stays as it was.
  pub cached-find_one_cached :
      (id : String) (ms : ℕ) (k : String) (s : t.State) (j : String)
      → (t.cached (t.find_one_cached id ms k s).1 j ≡ t.cached s j)
        ⊎ (id ≡ j)
          × (t.cached (t.find_one_cached id ms k s).1 j
              ≡ some (through (t.cached s id) (t.row s k)))
  pub exist_ok :
      (k : String) (s : t.State) (b : Bool)
      → (t.exist k s).0 ≡ ok b
      → b ≡ not (is_absent (t.row s k))
  pub row-exist : (k : String) (s : t.State) (j : String) → t.row (t.exist k s).1 j ≡ t.row s j
  pub cached-exist :
      (k : String) (s : t.State) (id : String) → t.cached (t.exist k s).1 id ≡ t.cached s id
  pub insert_ok : (r : Row) (s : t.State) → (t.insert r s).0 ≡ ok tt → t.row s (key r) ≡ none
  pub row-insert :
      (r : Row) (s : t.State) (j : String)
      → (t.insert r s).0 ≡ ok tt
      → t.row (t.insert r s).1 j ≡ (if str_eq (key r) j then some r else t.row s j)
  pub cached-insert :
      (r : Row) (s : t.State) (id : String) → t.cached (t.insert r s).1 id ≡ t.cached s id
  pub row-update :
      (k : String) (f : Row → Row) (s : t.State) (j : String)
      → (t.update k f s).0 ≡ ok tt
      → t.row (t.update k f s).1 j ≡ (if str_eq k j then map_row f (t.row s k) else t.row s j)
  pub cached-update :
      (k : String) (f : Row → Row) (s : t.State) (id : String)
      → t.cached (t.update k f s).1 id ≡ t.cached s id
  pub row-delete :
      (k : String) (s : t.State) (j : String)
      → (t.delete k s).0 ≡ ok tt
      → t.row (t.delete k s).1 j ≡ (if str_eq k j then none else t.row s j)
  pub cached-delete :
      (k : String) (s : t.State) (id : String) → t.cached (t.delete k s).1 id ≡ t.cached s id
  pub row-remove_cached :
      (id : String) (s : t.State) (j : String) → t.row (t.remove_cached id s).1 j ≡ t.row s j
  pub cached-remove_cached :
      (id : String) (s : t.State) (j : String)
      → (t.remove_cached id s).0 ≡ ok tt
      → t.cached (t.remove_cached id s).1 j ≡ (if str_eq id j then none else t.cached s j)
