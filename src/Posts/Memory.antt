-- ===== src/Posts/Memory.antt =====
-- The posts in memory: it shows that the laws of the table can hold, and the tests run on it. It reads
-- cached results, and stores none.
use personal_blog_service.Common.{
  ℕ, ◌+◌, ◌<◌, max, String, ◌≡◌, refl, inl, not, Option, none, List, [], ◌∷◌, length, select, arith,
}
use personal_blog_service.Exec.{ok}
use personal_blog_service.Posts.Table.{
  PostEntity, NewPost, PostTable, PostTableLaws, is_by, is_of, or_cached, window, first_of,
  map_where,
}

pub record Rows : Type 0 where
  pub rows : List PostEntity
  pub pages : String → Option (List PostEntity)
  pub counts : String → Option ℕ

abbrev greatest : List PostEntity → ℕ
greatest [] = 0
greatest (e ∷ es) = max e.post_id (greatest es)

first_of_above : (k : ℕ) (es : List PostEntity) → greatest es < k → first_of k es ≡ none
first_of_above k [] h = refl
first_of_above k (e ∷ es) h = ground (arith, first_of_above k es)

-- The row that an insert makes.
abbrev inserted : NewPost → List PostEntity → PostEntity
inserted n rows = record {
  post_id = greatest rows + 1;
  post_uid = n.post_uid;
  title = n.title;
  write_datetime = "2026-01-01 00:00:00";
  contents = n.contents;
  hits = 0;
}

abbrev found : Option String → ℕ → ℕ → String → Rows → List PostEntity × ℕ
found where_uid count skip id s =
    let rows = select (is_by where_uid) s.rows in
    (or_cached (s.pages id) (window count skip rows), or_cached (s.counts id) (length rows))

abbrev pub table : PostTable
table = record {
  State = Rows;
  posts = λ s. s.rows;
  cached_rows = λ s id. s.pages id;
  cached_count = λ s id. s.counts id;
  find_and_count = λ where_uid count skip id ms s. (ok (found where_uid count skip id s), s);
  find_one = λ post_id s. (ok (first_of post_id s.rows), s);
  insert = λ n s. (ok tt, record s { rows = inserted n s.rows ∷ s.rows });
  update = λ post_id post_uid f s.
      (ok tt, record s { rows = map_where (is_of post_id post_uid) f s.rows });
  delete = λ post_id post_uid s.
      (ok tt, record s { rows = select (λ e. not (is_of post_id post_uid e)) s.rows });
}

answer :
    (where_uid : Option String) (count skip : ℕ) (id : String) (ms : ℕ) (s : Rows)
    (r : List PostEntity × ℕ)
    → (table.find_and_count where_uid count skip id ms s).0 ≡ ok r
    → r ≡ found where_uid count skip id s
answer where_uid count skip id ms s r h = cc

first :
    (post_id : ℕ) (s : Rows) (r : Option PostEntity)
    → (table.find_one post_id s).0 ≡ ok r
    → r ≡ first_of post_id s.rows
first post_id s r h = cc

pub table_laws : PostTableLaws table
table_laws = record {
  find_and_count_ok = answer;
  posts-find_and_count = λ where_uid count skip id ms s. refl;
  cached_rows-find_and_count = λ where_uid count skip id ms s j. inl refl;
  cached_count-find_and_count = λ where_uid count skip id ms s j. inl refl;
  find_one_ok = first;
  posts-find_one = λ post_id s. refl;
  posts-insert = λ n s h. (
    inserted n s.rows,
    refl,
    refl,
    refl,
    refl,
    refl,
    first_of_above (greatest s.rows + 1) s.rows (omega arith),
  );
  posts-update = λ post_id post_uid f s h. refl;
  posts-delete = λ post_id post_uid s h. refl;
  cached-insert = λ n s id. (refl, refl);
  cached-update = λ post_id post_uid f s id. (refl, refl);
  cached-delete = λ post_id post_uid s id. (refl, refl);
}
