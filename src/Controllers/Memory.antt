-- ===== src/Controllers/Memory.antt =====
-- Two posts in memory, and ciphers that hide nothing.
use personal_blog_service.Common.{ℕ, String, read_digits, none, ◌∷◌, [], true}
use personal_blog_service.Exec.{ok}
use personal_blog_service.Auth.Memory.{platform}
use personal_blog_service.Likes.Memory.{likes, users, ann_and_bob}
use personal_blog_service.Posts.Table.{PostEntity}
use personal_blog_service.Posts.Memory.{table}
use personal_blog_service.Posts.Service.{State}
use personal_blog_service.Controllers.{Pipes}

abbrev pub pipes : Pipes
pipes = record {
  crypto = platform.crypto;
  pk_secret_key = "pk";
  parse_int = λ key. ok (read_digits 0 key);
}

abbrev post : ℕ → String → PostEntity
post post_id uid = record {
  post_id = post_id;
  post_uid = uid;
  title = "Hello";
  write_datetime = "2026-01-01 00:00:00";
  contents = "World";
  hits = 0;
}

-- A post of ann and one of bob.
abbrev pub site : State table likes users
site = record {
  posts = record {
    rows = post 2 "bob" ∷ post 1 "ann" ∷ [];
    pages = λ id. none;
    counts = λ id. none;
  };
  blog = record { likes = λ e. true; infos = ann_and_bob };
}
