-- ===== src/Config/Logging.antt =====
-- src/config/winstonConfig.ts: where the log lines go. Their format is left out.
use personal_blog_service.Common.{ℕ, String, ◌⊕◌, Bool, true, List, [], ◌∷◌, if◌then◌else◌}
use personal_blog_service.Config.{Environment, is_test_env, is_prod_env}

pub record DailyRotateFile : Type 0 where
  pub level : String
  pub date_pattern : String
  pub dirname : String
  pub filename : String
  pub max_files : ℕ
  pub zipped_archive : Bool

pub data Transport : Type 0 where
  console : String → Transport
  daily : DailyRotateFile → Transport

abbrev pub daily_option : String → DailyRotateFile
daily_option level = record {
  level = level;
  date_pattern = "YYYY-MM-DD";
  dirname = "logs/" ⊕ level;
  filename = "%DATE%." ⊕ level ⊕ ".log";
  max_files = 30;
  zipped_archive = true;
}

unfoldable pub transports : Environment → List Transport
transports env =
    console (if is_prod_env env then "info" else "silly")
    ∷ (if is_test_env env
        then []
        else daily (daily_option (if is_prod_env env then "error" else "info")) ∷ [])
