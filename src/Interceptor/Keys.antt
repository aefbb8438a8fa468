-- ===== src/Interceptor/Keys.antt =====
-- The keys that reach Redis: UUID_V4_REGEX fixes the length of the client's part, so the user and
-- the key can be read back from a Redis key.
use Prim.Native.String.{count}
use text.Mathlib.TextLemmas.{length-nil, length-cons, length-append, append_cancel_left, append_inj}
use personal_blog_service.Common.{
  ℕ, suc, String, ◌⊕◌, codes, ◌≡◌, refl, sym, ap, ◌∙◌, true, List, [], ◌∷◌, length, arith,
}
use personal_blog_service.Idempotency.{build_key}
use personal_blog_service.Interceptor.{CharClass, uuid_v4, matches, is_uuid_v4}

length-codes : (s : String) → length (codes s) ≡ count s
length-codes String.[] = sym length-nil
length-codes (String.◌∷◌ c s) = ap suc (length-codes s) ∙ sym (length-cons c s)

matches-length : (ps : List CharClass) (cs : List ℕ) → matches ps cs ≡ true → length cs ≡ length ps
unfolding matches
matches-length [] [] h = refl
matches-length [] (c ∷ cs) h = cc
matches-length (p ∷ ps) [] h = cc
matches-length (p ∷ ps) (c ∷ cs) h = ap suc (matches-length ps cs (ground arith))

-- An accepted key has 36 characters.
pub is_uuid_v4-count : (key : String) → is_uuid_v4 key ≡ true → count key ≡ 36
unfolding is_uuid_v4
is_uuid_v4-count key h = omega (arith, length-codes key, matches-length uuid_v4 (codes key) h)

-- Two users, or two accepted keys, never meet in one Redis key: a record is visible to its own
-- user and key alone.
pub build_key-injective :
    (uid uid' key key' : String)
    → is_uuid_v4 key ≡ true
    → is_uuid_v4 key' ≡ true
    → build_key uid key ≡ build_key uid' key'
    → (uid ≡ uid') × (key ≡ key')
unfolding build_key
build_key-injective uid uid' key key' h h' e =
    let tails : uid ⊕ ":" ⊕ key ≡ uid' ⊕ ":" ⊕ key' = append_cancel_left "idempotency:" _ _ e in
    let same_length : count uid ≡ count uid' = omega (
      arith,
      ap count tails,
      length-append uid (":" ⊕ key),
      length-append uid' (":" ⊕ key'),
      length-append ":" key,
      length-append ":" key',
      is_uuid_v4-count key h,
      is_uuid_v4-count key' h',
    ) in
    let (users, rests) = append_inj tails same_length in
    (users, append_cancel_left ":" key key' rests)
