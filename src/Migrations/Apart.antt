-- ===== src/Migrations/Apart.antt =====
-- Tables that the migrations have nothing to do with.
use personal_blog_service.Common.{
  String, str_eq, eq_iff, ◌≡◌, refl, sym, ap, ◌∙◌, Bool, true, false, Bool-cases, inl, inr, ◌||◌,
  All, List, [], ◌∷◌, arith,
}
use personal_blog_service.Migrations.{ForeignKey, TableDefinition}
use personal_blog_service.Migrations.Schema.{
  any, is_named, has_foreign_key, refers_to, altered, without,
}

abbrev is_among : List String → String → Bool
is_among names n = any (λ m. str_eq n m) names

abbrev table_names : List String
table_names = "USER_INFO" ∷ "USER_AUTH" ∷ "POST" ∷ "POST_LIKE" ∷ "user" ∷ []

abbrev key_names : List String
key_names =
    "FK_97b38392e0343ed6c501df70847" ∷ "FK_f451f4f930c50960c6f021fa726"
    ∷ "FK_1f4e0f3b36ee1450948518cf404" ∷ "FK_f2920116bfdcb5d337ddfa2ed90" ∷ []

-- Neither the table nor one of its foreign keys has a name that the migrations use, and none of its
-- foreign keys refers to one of their tables.
abbrev pub IsApart : TableDefinition → Type 0
IsApart t =
    (is_among table_names t.name ≡ false)
    × (any (λ k. is_among key_names k.name) t.foreign_keys ≡ false)
    × (any (λ k. is_among table_names k.references) t.foreign_keys ≡ false)

any_head : (b c : Bool) → (b || c) ≡ false → (b ≡ false) × (c ≡ false)
any_head b c h = ground arith

-- What is weaker than a test that fails everywhere fails everywhere.
any_weaker :
    {A : Type 0} (p q : A → Bool)
    → ((x : A) → q x ≡ false → p x ≡ false)
    → (xs : List A) → any q xs ≡ false
    → any p xs ≡ false
any_weaker p q f [] h = refl
any_weaker p q f (x ∷ xs) h =
    let (first, rest) = any_head (q x) (any q xs) h in rw (f x first, any_weaker p q f xs rest) refl

any_apart :
    (p : TableDefinition → Bool)
    → ((t : TableDefinition) → IsApart t → p t ≡ false)
    → (ts : List TableDefinition) → All IsApart ts
    → any p ts ≡ false
any_apart p f [] h = refl
any_apart p f (t ∷ ts) (first, rest) = rw (f t first, any_apart p f ts rest) refl

is_among_ne :
    (n : String) (names : List String) (m : String)
    → is_among names n ≡ true
    → is_among names m ≡ false
    → str_eq m n ≡ false
is_among_ne n names m h h' = elim (Bool-cases (str_eq m n)) [
  | inl e ↦
      let same : m ≡ n = ground (arith, eq_iff m n) in
      let both : true ≡ false = sym h ∙ ap (is_among names) (sym same) ∙ h' in absurd (ground arith)
  | inr e ↦ e
]

altered_absent :
    (n : String) (f : TableDefinition → TableDefinition) (ts : List TableDefinition)
    → any (is_named n) ts ≡ false
    → altered n f ts ≡ ts
altered_absent n f [] h = refl
altered_absent n f (t ∷ ts) h =
    let (first, rest) = any_head (is_named n t) (any (is_named n) ts) h in
    rw (first, altered_absent n f ts rest) refl

without_absent :
    (n : String) (ts : List TableDefinition) → any (is_named n) ts ≡ false → without n ts ≡ ts
without_absent n [] h = refl
without_absent n (t ∷ ts) h =
    let (first, rest) = any_head (is_named n t) (any (is_named n) ts) h in
    rw (first, without_absent n ts rest) refl

module _ (ts : List TableDefinition) (apart : All IsApart ts) where
  pub any-is_named : (n : String) → is_among table_names n ≡ true → any (is_named n) ts ≡ false
  any-is_named n h = any_apart (is_named n) (λ t a. is_among_ne n table_names t.name h a.0) ts apart

  pub any-has_foreign_key :
      (n : String) → is_among key_names n ≡ true → any (has_foreign_key n) ts ≡ false
  any-has_foreign_key n h =
      any_apart (has_foreign_key n)
        (λ t a.
          any_weaker _ _ (λ (k : ForeignKey). is_among_ne n key_names k.name h) t.foreign_keys a.1)
        ts apart

  pub any-refers_to : (n : String) → is_among table_names n ≡ true → any (refers_to n) ts ≡ false
  any-refers_to n h =
      any_apart (refers_to n)
        (λ t a.
          rw
            (any_weaker (λ k. str_eq k.references n) _
              (λ (k : ForeignKey). is_among_ne n table_names k.references h) t.foreign_keys a.2)
            refl)
        ts apart

  pub altered_apart :
      (n : String) (f : TableDefinition → TableDefinition)
      → is_among table_names n ≡ true
      → altered n f ts ≡ ts
  altered_apart n f h = altered_absent n f ts (any-is_named n h)

  pub without_apart : (n : String) → is_among table_names n ≡ true → without n ts ≡ ts
  without_apart n h = without_absent n ts (any-is_named n h)
