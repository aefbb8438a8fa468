-- ===== src/Migrations/InitialSchema.antt =====
-- src/migrations/1777453897802-InitialSchema.ts: the tables of the accounts, the posts and the likes.
use personal_blog_service.Common.{true, false, [], ◌∷◌, List}
use personal_blog_service.Migrations.{
  TableDefinition, ForeignKey, Statement, create_table, add_foreign_key, drop_foreign_key,
  drop_index, drop_table, column,
}

abbrev pub user_info : TableDefinition
user_info = record {
  name = "USER_INFO";
  columns =
      column "UID" "varchar(100) NOT NULL"
      ∷ column "NICKNAME" "varchar(100) NOT NULL"
      ∷ column "INTRODUCE" "varchar(500) NOT NULL"
      ∷ column "CREATE_DATETIME" "datetime(6) NOT NULL DEFAULT CURRENT_TIMESTAMP(6)"
      ∷ column "MODIFY_DATETIME"
          "datetime(6) NOT NULL DEFAULT CURRENT_TIMESTAMP(6) ON UPDATE CURRENT_TIMESTAMP(6)"
      ∷ [];
  indexes =
      record { name = "IDX_ffe75b702eadb72fd7712eade4"; unique = true; column = "NICKNAME" } ∷ [];
  primary_key = "UID" ∷ [];
  foreign_keys = [];
}

abbrev pub user_auth : TableDefinition
user_auth = record {
  name = "USER_AUTH";
  columns =
      column "UID" "varchar(100) NOT NULL"
      ∷ column "PASSWORD" "varchar(1000) NOT NULL"
      ∷ column "SALT" "varchar(50) NOT NULL"
      ∷ column "SOCIAL_YN" "char(1) NOT NULL"
      ∷ column "REFRESH_TOKEN" "varchar(500) NOT NULL"
      ∷ column "USER_ROLE" "enum ('ADMIN', 'USER') NOT NULL"
      ∷ column "CREATE_DATETIME" "datetime(6) NOT NULL DEFAULT CURRENT_TIMESTAMP(6)"
      ∷ column "MODIFY_DATETIME"
          "datetime(6) NOT NULL DEFAULT CURRENT_TIMESTAMP(6) ON UPDATE CURRENT_TIMESTAMP(6)"
      ∷ [];
  indexes = [];
  primary_key = "UID" ∷ [];
  foreign_keys = [];
}

abbrev pub post : TableDefinition
post = record {
  name = "POST";
  columns =
      column "POST_ID" "int NOT NULL AUTO_INCREMENT"
      ∷ column "POST_UID" "varchar(100) NOT NULL"
      ∷ column "TITLE" "varchar(500) NOT NULL"
      ∷ column "WRITE_DATETIME" "datetime(6) NOT NULL DEFAULT CURRENT_TIMESTAMP(6)"
      ∷ column "CONTENTS" "text NOT NULL"
      ∷ column "HITS" "int NOT NULL DEFAULT '0'"
      ∷ column "CREATE_DATETIME" "datetime(6) NOT NULL DEFAULT CURRENT_TIMESTAMP(6)"
      ∷ column "MODIFY_DATETIME"
          "datetime(6) NOT NULL DEFAULT CURRENT_TIMESTAMP(6) ON UPDATE CURRENT_TIMESTAMP(6)"
      ∷ [];
  indexes =
      record { name = "IDX_f451f4f930c50960c6f021fa72"; unique = false; column = "POST_UID" } ∷ [];
  primary_key = "POST_ID" ∷ [];
  foreign_keys = [];
}

abbrev pub post_like : TableDefinition
post_like = record {
  name = "POST_LIKE";
  columns =
      column "POST_ID" "int NOT NULL"
      ∷ column "UID" "varchar(100) NOT NULL"
      ∷ column "CREATE_DATETIME" "datetime(6) NOT NULL DEFAULT CURRENT_TIMESTAMP(6)"
      ∷ column "MODIFY_DATETIME"
          "datetime(6) NOT NULL DEFAULT CURRENT_TIMESTAMP(6) ON UPDATE CURRENT_TIMESTAMP(6)"
      ∷ [];
  indexes = [];
  primary_key = "POST_ID" ∷ "UID" ∷ [];
  foreign_keys = [];
}

abbrev pub user_info_account : ForeignKey
user_info_account = record {
  name = "FK_97b38392e0343ed6c501df70847";
  column = "UID";
  references = "USER_AUTH";
  target = "UID";
}

abbrev pub post_account : ForeignKey
post_account = record {
  name = "FK_f451f4f930c50960c6f021fa726";
  column = "POST_UID";
  references = "USER_AUTH";
  target = "UID";
}

abbrev pub post_like_post : ForeignKey
post_like_post = record {
  name = "FK_1f4e0f3b36ee1450948518cf404";
  column = "POST_ID";
  references = "POST";
  target = "POST_ID";
}

abbrev pub post_like_account : ForeignKey
post_like_account = record {
  name = "FK_f2920116bfdcb5d337ddfa2ed90";
  column = "UID";
  references = "USER_AUTH";
  target = "UID";
}

abbrev pub up : List Statement
up =
    create_table user_info
    ∷ create_table user_auth
    ∷ create_table post
    ∷ create_table post_like
    ∷ add_foreign_key "USER_INFO" user_info_account
    ∷ add_foreign_key "POST" post_account
    ∷ add_foreign_key "POST_LIKE" post_like_post
    ∷ add_foreign_key "POST_LIKE" post_like_account
    ∷ []

abbrev pub down : List Statement
down =
    drop_foreign_key "POST_LIKE" "FK_f2920116bfdcb5d337ddfa2ed90"
    ∷ drop_foreign_key "POST_LIKE" "FK_1f4e0f3b36ee1450948518cf404"
    ∷ drop_foreign_key "POST" "FK_f451f4f930c50960c6f021fa726"
    ∷ drop_foreign_key "USER_INFO" "FK_97b38392e0343ed6c501df70847"
    ∷ drop_table "POST_LIKE"
    ∷ drop_index "POST" "IDX_f451f4f930c50960c6f021fa72"
    ∷ drop_table "POST"
    ∷ drop_table "USER_AUTH"
    ∷ drop_index "USER_INFO" "IDX_ffe75b702eadb72fd7712eade4"
    ∷ drop_table "USER_INFO"
    ∷ []
