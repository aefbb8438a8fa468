-- ===== src/Encryption/Shown.antt =====
-- What `encryptObject` hides, and what it shows as it is.
use personal_blog_service.Common.{
  ℕ, String, str_eq, eq_iff, ◌≡◌, refl, ap, sym, ◌∙◌, ◌⊎◌, inl, inr, Bool, true, false, ◌||◌,
  Bool-cases, some, List, [], ◌∷◌, if◌then◌else◌, arith,
}
use mathlib.Core.Path.{subst}
use personal_blog_service.Auth.Platform.{Crypto}
use personal_blog_service.Encryption.Values.{
  JsValue, text, Fields, end, field, Instance, to_text, get, set,
}
use personal_blog_service.Encryption.{Metadata, is_nullish, encrypt_at, encrypt_all, encrypt_object}

abbrev pub mem : String → List String → Bool
mem key [] = false
mem key (k ∷ ks) = str_eq k key || mem key ks

abbrev pub IsDistinct : List String → Type 0
IsDistinct [] = Unit
IsDistinct (k ∷ ks) = (mem k ks ≡ false) × IsDistinct ks

get_set_same : (key : String) (v : JsValue) (fs : Fields) → get key (set key v fs) ≡ v
get_set_same key v end = ground (arith, eq_iff key key)
get_set_same key v (field k w fs) = elim (Bool-cases (str_eq k key)) [
  | inl e ↦ rw (e, e) refl
  | inr e ↦ rw (e, e) (get_set_same key v fs)
]

-- A key that is another name of `key` is not `other` either.
renamed :
    (key other k : String) → str_eq k key ≡ true → str_eq key other ≡ false → str_eq k other ≡ false
renamed key other k e h = ground (arith, eq_iff k key)

get_set_other :
    (key other : String) (v : JsValue) (fs : Fields)
    → str_eq key other ≡ false
    → get other (set key v fs) ≡ get other fs
get_set_other key other v end h = rw h refl
get_set_other key other v (field k w fs) h = elim (Bool-cases (str_eq k key)) [
  | inl e ↦ rw (e, renamed key other k e h) refl
  | inr e ↦ rw e (ap (λ u. if str_eq k other then w else u) (get_set_other key other v fs h))
]

-- A value `v` under a key that is marked or not, and what the response has in its place.
pub data Shown (crypto : Crypto) (secret : String) (marked : Bool) (v w : JsValue) : Type 0 where
  kept : (marked ≡ false) ⊎ (is_nullish v ≡ true) → w ≡ v → Shown crypto secret marked v w
  hidden :
      marked ≡ true
      → is_nullish v ≡ false
      → (salt : ℕ) → w ≡ text (crypto.encrypt salt (to_text v) secret)
      → Shown crypto secret marked v w

module _ (crypto : Crypto) (secret : String) (metadata : Metadata) where
  abbrev fields_at : String → Fields → ℕ → Fields
  fields_at key fs n = (encrypt_at crypto secret metadata key fs n).0

  abbrev either : Bool → Fields × ℕ → Fields × ℕ → Fields
  either nullish a b = let (fs, _) = if nullish then a else b in fs

  either_other :
      (nullish : Bool) (key other : String) (v : JsValue) (fs : Fields) (m n : ℕ)
      → str_eq key other ≡ false
      → get other (either nullish (fs, m) (set key v fs, n)) ≡ get other fs
  either_other true key other v fs m n h = refl
  either_other false key other v fs m n h = get_set_other key other v fs h

  encrypt_at_other :
      (key other : String) (fs : Fields) (n : ℕ)
      → str_eq key other ≡ false
      → get other (fields_at key fs n) ≡ get other fs
  encrypt_at_other key other fs n h = either_other _ key other _ fs n _ h

  either-Shown :
      (nullish : Bool) (key : String) (fs : Fields) (m n : ℕ)
      → is_nullish (get key fs) ≡ nullish
      → let v = get key fs in
        Shown crypto secret true v (
          get key
            (either nullish (fs, m) (set key (text (crypto.encrypt m (to_text v) secret)) fs, n)))
  either-Shown true key fs m n h = kept (inr h) refl
  either-Shown false key fs m n h = hidden refl h m (get_set_same key _ fs)

  encrypt_at-Shown :
      (key : String) (fs : Fields) (n : ℕ)
      → Shown crypto secret true (get key fs) (get key (fields_at key fs n))
  encrypt_at-Shown key fs n = either-Shown _ key fs n _ refl

  abbrev after : List String → Fields → ℕ → Fields
  after keys fs n = (encrypt_all crypto secret metadata keys fs n).0

  encrypt_all_other :
      (keys : List String) (other : String) (fs : Fields) (n : ℕ)
      → mem other keys ≡ false
      → get other (after keys fs n) ≡ get other fs
  encrypt_all_other [] other fs n h = refl
  encrypt_all_other (key ∷ keys) other fs n h =
      let (fs', n') = encrypt_at crypto secret metadata key fs n in
      encrypt_all_other keys other fs' n' (ground arith)
      ∙ encrypt_at_other key other fs n (ground arith)

  first-Shown :
      (keys : List String) (key : String) (fs : Fields) (n : ℕ)
      → mem key keys ≡ false
      → Shown crypto secret true (get key fs) (get key (after (key ∷ keys) fs n))
  first-Shown keys key fs n new =
      let (fs', n') = encrypt_at crypto secret metadata key fs n in
      subst (Shown crypto secret true (get key fs)) (sym (encrypt_all_other keys key fs' n' new))
        (encrypt_at-Shown key fs n)

  encrypt_all-Shown :
      (keys : List String) (key : String) (fs : Fields) (n : ℕ)
      → IsDistinct keys
      → Shown crypto secret (mem key keys) (get key fs) (get key (after keys fs n))
  encrypt_all-Shown [] key fs n h = kept (inl refl) refl
  encrypt_all-Shown (k ∷ keys) key fs n (new, distinct) =
      let (fs', n') = encrypt_at crypto secret metadata k fs n in
      elim (Bool-cases (str_eq k key)) [
        | inl e ↦
            let same : k ≡ key = (eq_iff k key).0 e in
            rw e (
              subst (λ x. Shown crypto secret true (get x fs) (get x (after (k ∷ keys) fs n))) same
                (first-Shown keys k fs n new))
        | inr e ↦ rw e (
            subst (λ v. Shown crypto secret (mem key keys) v (get key (after keys fs' n')))
              (encrypt_at_other k key fs n e) (encrypt_all-Shown keys key fs' n' distinct))
      ]

  -- In the copy of an object of a class whose marked keys are distinct, what stands under a marked
  -- key and is neither undefined nor null is encrypted, and all else is what it was.
  pub encrypt_object-Shown :
      (o : Instance) (class key : String) (n : ℕ)
      → o.class ≡ some class
      → IsDistinct (metadata class)
      → Shown crypto secret
          (mem key (metadata class))
          (get key o.fields)
          (get key (encrypt_object crypto secret metadata o n).0.fields)
  unfolding encrypt_object
  encrypt_object-Shown o class key n e distinct =
      rw e (encrypt_all-Shown (metadata class) key o.fields n distinct)
