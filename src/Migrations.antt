-- ===== src/Migrations.antt =====
-- src/migrations: the statements of the two migrations, which `up` and `down` await one by one.
pub mod InitialSchema
pub mod CreateUserTable
pub mod Schema
pub mod Apart
pub mod Revert
mod Tests
use personal_blog_service.Common.{String, Bool, List, [], ◌∷◌}
use personal_blog_service.Exec.{Exec, pure, ◌>>◌}

-- A column with its type and its attributes.
pub record Column : Type 0 where
  pub name : String
  pub attributes : String

pub record Index : Type 0 where
  pub name : String
  pub unique : Bool
  pub column : String

-- FOREIGN KEY (column) REFERENCES references(target) ON DELETE NO ACTION ON UPDATE NO ACTION
pub record ForeignKey : Type 0 where
  pub name : String
  pub column : String
  pub references : String
  pub target : String

pub record TableDefinition : Type 0 where
  pub name : String
  pub columns : List Column
  pub indexes : List Index
  pub primary_key : List String
  pub foreign_keys : List ForeignKey

-- The kinds of statements; the first name is that of the table.
pub data Statement : Type 0 where
  create_table : TableDefinition → Statement
  add_foreign_key : String → ForeignKey → Statement
  drop_foreign_key : String → String → Statement
  drop_index : String → String → Statement
  drop_table : String → Statement

abbrev pub column : String → String → Column
column name attributes = record { name = name; attributes = attributes }

-- `await queryRunner.query(…)` for each statement.
module _ {State : Type 0} (query : Statement → Exec State (Unit {0})) where
  unfoldable pub run : List Statement → Exec State (Unit {0})
  run [] = pure tt
  run (c ∷ cs) = query c >> run cs
