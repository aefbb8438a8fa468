-- ===== src/Migrations/Tests.antt =====
-- The migrations on a database in memory.
use personal_blog_service.Common.{◌≡◌, refl, Bool, true, false, List, [], ◌∷◌, arith}
use personal_blog_service.Failure.Exceptions.{error}
use personal_blog_service.Exec.{Result, ok, throw, ◌>>◌}
use personal_blog_service.Migrations.{TableDefinition, Statement, column, run}
use personal_blog_service.Migrations.InitialSchema
use personal_blog_service.Migrations.CreateUserTable
use personal_blog_service.Migrations.Schema.{is_valid, applied, Database, DatabaseLaws}
use personal_blog_service.Migrations.Revert.{IsDone, migrated, run-migrated}

abbrev carry_out :
    Bool → Statement → List TableDefinition → Result (Unit {0}) × List TableDefinition
carry_out true c ts = (ok tt, applied c ts)
carry_out false c ts = (throw (error "QueryFailedError" "refused"), ts)

abbrev memory : Database
memory = record {
  State = List TableDefinition;
  tables = λ s. s;
  query = λ c s. carry_out (is_valid c s) c s;
}

carried_out :
    (valid : Bool) (c : Statement) (ts : List TableDefinition)
    → (carry_out valid c ts).0 ≡ ok tt
    → (carry_out valid c ts).1 ≡ applied c ts
carried_out true c ts h = refl
carried_out false c ts h = absurd (ground arith)

memory_laws : DatabaseLaws memory
memory_laws = record {
  query_ok = λ c s valid. rw valid refl;
  tables-query = λ c s done. carried_out (is_valid c s) c s done;
}

-- A schema that has only the table in which TypeORM keeps what has been run.
abbrev fresh : List TableDefinition
fresh =
    record {
      name = "migrations";
      columns = column "id" "int NOT NULL AUTO_INCREMENT" ∷ [];
      indexes = [];
      primary_key = "id" ∷ [];
      foreign_keys = [];
    }
    ∷ []

run-migrated_example :
    let m = (run memory.query InitialSchema.up >> run memory.query CreateUserTable.up) fresh in
    let r = (run memory.query CreateUserTable.down >> run memory.query InitialSchema.down) m.1 in
    IsDone memory m (migrated fresh) × IsDone memory r fresh
run-migrated_example = run-migrated memory memory_laws fresh ((refl, refl, refl), tt)
