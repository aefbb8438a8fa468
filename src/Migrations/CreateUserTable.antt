-- ===== src/Migrations/CreateUserTable.antt =====
-- src/migrations/1781912043621-CreateUserTable.ts: a table `user` with a number as its key.
use personal_blog_service.Common.{[], ◌∷◌, List}
use personal_blog_service.Migrations.{TableDefinition, Statement, create_table, drop_table, column}

abbrev pub user : TableDefinition
user = record {
  name = "user";
  columns =
      column "user_id" "bigint NOT NULL AUTO_INCREMENT"
      ∷ column "created_datetime" "datetime(3) NOT NULL DEFAULT CURRENT_TIMESTAMP(3)"
      ∷ column "modified_datetime"
          "datetime(3) NOT NULL DEFAULT CURRENT_TIMESTAMP(3) ON UPDATE CURRENT_TIMESTAMP(3)"
      ∷ [];
  indexes = [];
  primary_key = "user_id" ∷ [];
  foreign_keys = [];
}

abbrev pub up : List Statement
up = create_table user ∷ []

abbrev pub down : List Statement
down = drop_table "user" ∷ []
