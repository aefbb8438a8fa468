-- ===== src/Pipe/Keys.antt =====
-- What a route with an encrypted key gets to see.
use personal_blog_service.Common.{
  ℕ, String, str_eq, eq_iff, ◌≡◌, refl, ◌≢◌, ◌⊎◌, inl, inr, Bool, true, false, arith,
}
use personal_blog_service.Failure.Exceptions.{invalid_encrypted_parameter}
use personal_blog_service.Exec.{Result, ok, throw}
use personal_blog_service.Auth.Platform.{Crypto, CryptoLaws}
use personal_blog_service.Pipe.{non_empty, bound, or_invalid, transform}

-- An outcome of the decryption, and what the pipe makes of it.
abbrev pub IsOutcome : Result String → Result String → Type 0
IsOutcome r answer =
    (answer ≡ throw invalid_encrypted_parameter)
    ⊎ (key : String) × (answer ≡ ok key) × (r ≡ ok key) × (key ≢ "")

module _ (crypto : Crypto) (secret : String) where
  pub kept : (value : String) → value ≢ "" → non_empty value ≡ ok value
  kept value filled = ground (arith, eq_iff value "")

  -- A key that was encrypted with the secret is decrypted to itself, if it is not empty.
  pub transform-encrypt :
      (laws : CryptoLaws crypto) (salt : ℕ) (value : String)
      → value ≢ ""
      → transform crypto secret (crypto.encrypt salt value secret) ≡ ok value
  unfolding transform
  transform-encrypt laws salt value filled =
      rw (laws.decrypt-encrypt salt value secret, kept value filled) refl

  text-IsOutcome :
      (key : String) (is_empty : Bool)
      → str_eq key "" ≡ is_empty
      → IsOutcome (ok key) (or_invalid (non_empty key))
  text-IsOutcome key true e = inl (rw e refl)
  text-IsOutcome key false e = inr (key, rw e refl, refl, λ same. ground (arith, eq_iff key ""))

  result-IsOutcome : (r : Result String) → IsOutcome r (or_invalid (bound r))
  result-IsOutcome (throw _) = inl refl
  result-IsOutcome (ok key) = text-IsOutcome key (str_eq key "") refl

  -- Whatever text a path brings, the pipe refuses it with INVALID_ENCRYPTED_PARAMETER or answers
  -- the key that it decrypts to, which is not empty.
  pub transform-IsOutcome :
      (value : String) → IsOutcome (crypto.decrypt value secret) (transform crypto secret value)
  unfolding transform
  transform-IsOutcome value = result-IsOutcome (crypto.decrypt value secret)
