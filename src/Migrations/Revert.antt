-- ===== src/Migrations/Revert.antt =====
-- The migrations run, and are reverted.
use personal_blog_service.Common.{
  ◌≡◌, refl, ap, ◌∙◌, Bool, true, false, Option, none, some, All, List, [], ◌∷◌, arith,
  if◌then◌else◌,
}
use personal_blog_service.Exec.{Exec, Result, ok, continue, ◌>>◌}
use personal_blog_service.Migrations.{ForeignKey, TableDefinition, Statement, run}
use personal_blog_service.Migrations.InitialSchema
use personal_blog_service.Migrations.CreateUserTable
use personal_blog_service.Migrations.Schema.{is_valid, applied, Database, DatabaseLaws}
use personal_blog_service.Migrations.Apart.{
  IsApart, any-is_named, any-has_foreign_key, any-refers_to, altered_apart, without_apart,
}

-- What a list of statements makes of a schema that admits them one after the other.
replay : List Statement → List TableDefinition → Option (List TableDefinition)
replay [] ts = some ts
replay (c ∷ cs) ts = let rest = replay cs (applied c ts) in if is_valid c ts then rest else none

abbrev with_keys : TableDefinition → List ForeignKey → TableDefinition
with_keys t ks = record t { foreign_keys = ks }

-- The schema after InitialSchema, and after both migrations.
abbrev with_blog : List TableDefinition → List TableDefinition
with_blog ts =
    with_keys InitialSchema.post_like
      (InitialSchema.post_like_account ∷ InitialSchema.post_like_post ∷ [])
    ∷ with_keys InitialSchema.post (InitialSchema.post_account ∷ [])
    ∷ InitialSchema.user_auth
    ∷ with_keys InitialSchema.user_info (InitialSchema.user_info_account ∷ [])
    ∷ ts

abbrev pub migrated : List TableDefinition → List TableDefinition
migrated ts = CreateUserTable.user ∷ with_blog ts

module _ (ts : List TableDefinition) (apart : All IsApart ts) where
  replay-initial_up : replay InitialSchema.up ts ≡ some (with_blog ts)
  unfolding replay
  replay-initial_up =
      simp (any-is_named ts apart, any-has_foreign_key ts apart, altered_apart ts apart) refl

  replay-user_up : replay CreateUserTable.up (with_blog ts) ≡ some (migrated ts)
  unfolding replay
  replay-user_up = simp (any-is_named ts apart) refl

  replay-user_down : replay CreateUserTable.down (migrated ts) ≡ some (with_blog ts)
  unfolding replay
  replay-user_down = simp (any-refers_to ts apart, without_apart ts apart) refl

  replay-initial_down : replay InitialSchema.down (with_blog ts) ≡ some ts
  unfolding replay
  replay-initial_down =
      simp (any-refers_to ts apart, altered_apart ts apart, without_apart ts apart) refl

-- A script was carried out to its end, and has left these tables.
abbrev pub IsDone : (d : Database) → Result (Unit {0}) × d.State → List TableDefinition → Type 0
IsDone d (r, s) ts = (r ≡ ok tt) × (d.tables s ≡ ts)

admitted :
    (valid : Bool) (rest : Option (List TableDefinition)) (us : List TableDefinition)
    → (if valid then rest else none) ≡ some us
    → (valid ≡ true) × (rest ≡ some us)
admitted true rest us h = (refl, h)
admitted false rest us h = absurd (ground arith)

went_on :
    {S : Type 0} {r : Result (Unit {0})}
    → r ≡ ok tt
    → (m : Exec S (Unit {0})) (s : S) → continue (λ _. m) r s ≡ m s
went_on h m s = rw h refl

module _ (d : Database) (laws : DatabaseLaws d) where
  -- A script whose statements are admitted one after the other is carried out to its end.
  run-replay :
      (cs : List Statement) (s : d.State) (ts us : List TableDefinition)
      → d.tables s ≡ ts
      → replay cs ts ≡ some us
      → IsDone d (run d.query cs s) us
  unfolding run replay
  run-replay [] s ts us e h = (refl, e ∙ same)
    where
      same : ts ≡ us
      same = cc
  run-replay (c ∷ cs) s ts us e h =
      let (valid, rest) = admitted (is_valid c ts) (replay cs (applied c ts)) us h in
      let done = laws.query_ok c s (rw e valid) in
      rw (went_on done (run d.query cs) (d.query c s).1) (
        run-replay cs (d.query c s).1 (applied c ts) us
          (laws.tables-query c s done ∙ ap (applied c) e) rest)

  -- On a schema whose tables are apart from those of the migrations, both migrations run to their ends
  -- and make the five tables with their foreign keys; and when they are reverted, the last one first,
  -- this runs to its end too and leaves the schema as it was.
  pub run-migrated :
      (s : d.State)
      → All IsApart (d.tables s)
      → let m = (run d.query InitialSchema.up >> run d.query CreateUserTable.up) s in
        let r = (run d.query CreateUserTable.down >> run d.query InitialSchema.down) m.1 in
        IsDone d m (migrated (d.tables s)) × IsDone d r (d.tables s)
  run-migrated s apart =
      let ts = d.tables s in
      let (a, e) = run-replay _ s ts _ refl (replay-initial_up ts apart) in
      let s1 = (run d.query InitialSchema.up s).1 in
      let (b, e') = run-replay _ s1 _ _ e (replay-user_up ts apart) in
      let s2 = (run d.query CreateUserTable.up s1).1 in
      let (x, f) = run-replay _ s2 _ _ e' (replay-user_down ts apart) in
      let s3 = (run d.query CreateUserTable.down s2).1 in
      rw (went_on a (run d.query CreateUserTable.up) s1) (
        (b, e'),
        rw (went_on x (run d.query InitialSchema.down) s3)
            (run-replay _ s3 _ _ f (replay-initial_down ts apart)),
      )
