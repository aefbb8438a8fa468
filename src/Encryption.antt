-- ===== src/Encryption.antt =====
-- src/interceptor/encrypt-primary-key.interceptor.ts: the keys in a response leave encrypted.
pub mod Values
pub mod Shown
pub mod Posts
mod Tests
use personal_blog_service.Common.{
  ℕ, ◌+◌, String, str_eq, Bool, true, false, Option, none, some, List, [], ◌∷◌, ◌++◌, if◌then◌else◌,
}
use personal_blog_service.Auth.Platform.{Crypto}
use personal_blog_service.Encryption.Values.{
  JsValue, undefined, null, number, text, array, object, Elements, nil, cons, Fields, end, field,
  Instance, to_text, get, set, indexed,
}

-- ENCRYPT_FIELD_KEY: the keys that are marked in a class.
abbrev pub Metadata : Type 0
Metadata = String → List String

-- `@EncryptField()` on a property of the class `target`.
abbrev pub encrypt_field : String → String → Metadata → Metadata
encrypt_field target property_key metadata class =
    if str_eq class target then metadata class ++ (property_key ∷ []) else metadata class

abbrev pub is_nullish : JsValue → Bool
is_nullish undefined = true
is_nullish null = true
is_nullish _ = false

-- The interceptor with its secret and the metadata. The number is the source of random salts.
module _ (crypto : Crypto) (pk_secret_key : String) (metadata : Metadata) where
  -- One round of the loop of `encryptObject`.
  abbrev pub encrypt_at : String → Fields → ℕ → Fields × ℕ
  encrypt_at key fs n =
      if is_nullish (get key fs)
      then (fs, n)
      else (set key (text (crypto.encrypt n (to_text (get key fs)) pk_secret_key)) fs, n + 1)

  abbrev pub encrypt_all : List String → Fields → ℕ → Fields × ℕ
  encrypt_all [] fs n = (fs, n)
  encrypt_all (key ∷ keys) fs n = let (fs', n') = encrypt_at key fs n in encrypt_all keys fs' n'

  -- The copy is a plain object. What has no constructor is left alone.
  unfoldable pub encrypt_object : Instance → ℕ → Instance × ℕ
  encrypt_object o n = elim (o.class) [
    | none ↦ (o, n)
    | some class ↦
        let (fs, n') = encrypt_all (metadata class) o.fields n in
        (record { class = some "Object"; fields = fs }, n')
  ]

  -- An array is an object too.
  unfoldable pub encrypt_item : JsValue → ℕ → JsValue × ℕ
  encrypt_item (object class fs) n =
      let (o, n') = encrypt_object (record { class = class; fields = fs }) n in
      (object o.class o.fields, n')
  encrypt_item (array vs) n =
      let (o, n') = encrypt_object (record { class = some "Array"; fields = indexed 0 vs }) n in
      (object o.class o.fields, n')
  encrypt_item v n = (v, n)

  unfoldable pub encrypt_items : Elements → ℕ → Elements × ℕ
  encrypt_items nil n = (nil, n)
  encrypt_items (cons v vs) n =
      let (v', n') = encrypt_item v n in let (vs', n'') = encrypt_items vs n' in (cons v' vs', n'')

  -- The value under one key of the result.
  abbrev pub encrypt_value : JsValue → ℕ → JsValue × ℕ
  encrypt_value (array vs) n = let (vs', n') = encrypt_items vs n in (array vs', n')
  encrypt_value v n = (v, n)

  -- The loop over the keys of the result.
  abbrev pub encrypt_arrays : Fields → ℕ → Fields × ℕ
  encrypt_arrays end n = (end, n)
  encrypt_arrays (field key v fs) n =
      let (v', n') = encrypt_value v n in
      let (fs', n'') = encrypt_arrays fs n' in (field key v' fs', n'')

  -- `none` is a response without a body.
  unfoldable pub encrypt_response : Option Instance → ℕ → Option Instance × ℕ
  encrypt_response none n = (none, n)
  encrypt_response (some data_object) n =
      let (o, n') = encrypt_object data_object n in
      let (fs, n'') = encrypt_arrays o.fields n' in (some (record o { fields = fs }), n'')
