-- ===== src/Orm/Memory.antt =====
-- A table and its cache in memory: it shows that the laws can hold, and the tests run on it.
use personal_blog_service.Common.{
  String, str_eq, eq_iff, ◌≡◌, refl, ◌⊎◌, inl, Bool, not, Option, none, some, arith, if◌then◌else◌,
}
use personal_blog_service.Exec.{Result, ok, throw}
use personal_blog_service.Failure.Exceptions.{error}
use personal_blog_service.Redis.{is_absent}
use personal_blog_service.Orm.{Table, TableLaws, map_row, through}

pub record Rows (Row : Type 0) : Type 0 where
  pub rows : String → Option Row
  pub results : String → Option (Option Row)

abbrev pub put : {A : Type 0} → String → A → (String → A) → String → A
put k a f j = if str_eq k j then a else f j

module _ {Row : Type 0} (key : Row → String) where
  abbrev insert_into : Row → Rows Row → Option Row → Result (Unit {0}) × Rows Row
  insert_into r s none = (ok tt, record s { rows = put (key r) (some r) s.rows })
  insert_into r s (some _) = (throw (error "QueryFailedError" "Duplicate entry"), s)

  abbrev pub find_through :
      String → String → Rows Row → Option (Option Row) → Result (Option Row) × Rows Row
  find_through id k s none =
      (ok (s.rows k), record s { results = put id (some (s.rows k)) s.results })
  find_through id k s (some held) = (ok held, s)

  abbrev pub table : Table Row
  table = record {
    State = Rows Row;
    row = λ s j. s.rows j;
    cached = λ s j. s.results j;
    find_one = λ k s. (ok (s.rows k), s);
    find_one_cached = λ id ms k s. find_through id k s (s.results id);
    exist = λ k s. (ok (not (is_absent (s.rows k))), s);
    insert = λ r s. insert_into r s (s.rows (key r));
    update = λ k f s. (ok tt, record s { rows = put k (map_row f (s.rows k)) s.rows });
    delete = λ k s. (ok tt, record s { rows = put k none s.rows });
    remove_cached = λ id s. (ok tt, record s { results = put id none s.results });
  }

  found :
      (k : String) (s : Rows Row) (r : Option Row) → (table.find_one k s).0 ≡ ok r → r ≡ s.rows k
  found k s r h = cc

  found_through :
      (id : String) (k : String) (s : Rows Row) (held : Option (Option Row)) (r : Option Row)
      → (find_through id k s held).0 ≡ ok r
      → r ≡ through held (s.rows k)
  found_through id k s none r h = cc
  found_through id k s (some held) r h = cc

  rows_through :
      (id : String) (k : String) (s : Rows Row) (held : Option (Option Row)) (j : String)
      → (find_through id k s held).1.rows j ≡ s.rows j
  rows_through id k s none j = refl
  rows_through id k s (some _) j = refl

  results_through :
      (id : String) (k : String) (s : Rows Row) (held : Option (Option Row)) (j : String)
      → ((find_through id k s held).1.results j ≡ s.results j)
        ⊎ (id ≡ j) × ((find_through id k s held).1.results j ≡ some (through held (s.rows k)))
  results_through id k s none j = ground (arith, eq_iff id j)
  results_through id k s (some _) j = inl refl

  existing :
      (k : String) (s : Rows Row) (b : Bool)
      → (table.exist k s).0 ≡ ok b
      → b ≡ not (is_absent (s.rows k))
  existing k s b h = cc

  inserted_fresh :
      (r : Row) (s : Rows Row) (old : Option Row) → (insert_into r s old).0 ≡ ok tt → old ≡ none
  inserted_fresh r s none h = refl
  inserted_fresh r s (some _) h = cc

  inserted_rows :
      (r : Row) (s : Rows Row) (old : Option Row) (j : String)
      → (insert_into r s old).0 ≡ ok tt
      → (insert_into r s old).1.rows j ≡ (if str_eq (key r) j then some r else s.rows j)
  inserted_rows r s none j h = refl
  inserted_rows r s (some _) j h = cc

  inserted_results :
      (r : Row) (s : Rows Row) (old : Option Row) (j : String)
      → (insert_into r s old).1.results j ≡ s.results j
  inserted_results r s none j = refl
  inserted_results r s (some _) j = refl

  pub table_laws : TableLaws table key
  table_laws = record {
    find_one_ok = found;
    row-find_one = λ k s j. refl;
    cached-find_one = λ k s j. refl;
    find_one_cached_ok = λ id ms k s. found_through id k s (s.results id);
    row-find_one_cached = λ id ms k s j. rows_through id k s (s.results id) j;
    cached-find_one_cached = λ id ms k s j. results_through id k s (s.results id) j;
    exist_ok = existing;
    row-exist = λ k s j. refl;
    cached-exist = λ k s j. refl;
    insert_ok = λ r s. inserted_fresh r s (s.rows (key r));
    row-insert = λ r s j. inserted_rows r s (s.rows (key r)) j;
    cached-insert = λ r s j. inserted_results r s (s.rows (key r)) j;
    row-update = λ k f s j h. refl;
    cached-update = λ k f s j. refl;
    row-delete = λ k s j h. refl;
    cached-delete = λ k s j. refl;
    row-remove_cached = λ id s j. refl;
    cached-remove_cached = λ id s j h. refl;
  }
