-- ===== src/Migrations/Schema.antt =====
-- What the migrations rely on of MySQL, which is no part of the repository: which statements a
-- schema admits, and what they do to it.
use personal_blog_service.Common.{
  String, str_eq, ◌≡◌, Bool, true, false, not, ◌&&◌, ◌||◌, List, [], ◌∷◌, select, if◌then◌else◌,
}
use personal_blog_service.Exec.{Exec, ok}
use personal_blog_service.Migrations.{
  Index, ForeignKey, TableDefinition, Statement, create_table, add_foreign_key, drop_foreign_key,
  drop_index, drop_table,
}

abbrev pub any : {A : Type 0} → (A → Bool) → List A → Bool
any p [] = false
any p (x ∷ xs) = p x || any p xs

abbrev pub is_named : String → TableDefinition → Bool
is_named n t = str_eq t.name n

abbrev is_foreign_key : String → ForeignKey → Bool
is_foreign_key n k = str_eq k.name n

abbrev pub has_foreign_key : String → TableDefinition → Bool
has_foreign_key n t = any (is_foreign_key n) t.foreign_keys

abbrev pub has_column : String → TableDefinition → Bool
has_column n t = any (λ c. str_eq c.name n) t.columns

abbrev is_first : String → List String → Bool
is_first n [] = false
is_first n (x ∷ _) = str_eq x n

-- The foreign key `k` can be put on `t`, and can refer to `t`.
abbrev pub is_holder : String → ForeignKey → TableDefinition → Bool
is_holder n k t = is_named n t && has_column k.column t

abbrev pub is_target : ForeignKey → TableDefinition → Bool
is_target k t = is_named k.references t && is_first k.target t.primary_key

-- A table other than `n` has a foreign key that refers to `n`.
abbrev pub refers_to : String → TableDefinition → Bool
refers_to n t = any (λ k. str_eq k.references n) t.foreign_keys && not (is_named n t)

-- An index can go unless a foreign key of its table is on its column.
abbrev is_free : TableDefinition → Index → Bool
is_free t i = not (any (λ k. str_eq k.column i.column) t.foreign_keys)

abbrev pub has_free_index : String → String → TableDefinition → Bool
has_free_index n index t = is_named n t && any (λ i. str_eq i.name index && is_free t i) t.indexes

abbrev pub is_valid : Statement → List TableDefinition → Bool
is_valid (create_table t) ts = not (any (is_named t.name) ts)
is_valid (add_foreign_key n k) ts =
    any (is_holder n k) ts && any (is_target k) ts && not (any (has_foreign_key k.name) ts)
is_valid (drop_foreign_key n key) ts = any (λ t. is_named n t && has_foreign_key key t) ts
is_valid (drop_index n index) ts = any (has_free_index n index) ts
is_valid (drop_table n) ts = any (is_named n) ts && not (any (refers_to n) ts)

abbrev pub altered :
    String → (TableDefinition → TableDefinition) → List TableDefinition → List TableDefinition
altered n f [] = []
altered n f (t ∷ ts) = (if is_named n t then f t else t) ∷ altered n f ts

abbrev pub without : String → List TableDefinition → List TableDefinition
without n ts = select (λ t. not (is_named n t)) ts

abbrev add_key : ForeignKey → TableDefinition → TableDefinition
add_key k t = record t { foreign_keys = k ∷ t.foreign_keys }

abbrev drop_key : String → TableDefinition → TableDefinition
drop_key n t = record t { foreign_keys = select (λ k. not (is_foreign_key n k)) t.foreign_keys }

abbrev drop_key_index : String → TableDefinition → TableDefinition
drop_key_index n t = record t { indexes = select (λ i. not (str_eq i.name n)) t.indexes }

abbrev pub applied : Statement → List TableDefinition → List TableDefinition
applied (create_table t) ts = t ∷ ts
applied (add_foreign_key n k) ts = altered n (add_key k) ts
applied (drop_foreign_key n key) ts = altered n (drop_key key) ts
applied (drop_index n index) ts = altered n (drop_key_index index) ts
applied (drop_table n) ts = without n ts

-- A database with its connection; `tables` leaves out the indexes that the server makes by itself for
-- a foreign key.
pub record Database : Type 1 where
  pub State : Type 0
  pub tables : State → List TableDefinition
  pub query : Statement → Exec State (Unit {0})

-- A statement that the schema admits is carried out, and it does what it says.
pub record DatabaseLaws (d : Database) : Type 0 where
  pub query_ok :
      (c : Statement) (s : d.State) → is_valid c (d.tables s) ≡ true → (d.query c s).0 ≡ ok tt
  pub tables-query :
      (c : Statement) (s : d.State)
      → (d.query c s).0 ≡ ok tt
      → d.tables (d.query c s).1 ≡ applied c (d.tables s)
