-- ===== src/Utils/Cipher.antt =====
-- src/utils/crypto.utils.ts: the encrypted primary keys, over AES of crypto-js and the URI functions
-- of JavaScript.
use personal_blog_service.Common.{ℕ, String, ◌≡◌}
use personal_blog_service.Exec.{Result, ok, throw}
use personal_blog_service.Auth.Platform.{Crypto, CryptoLaws}

pub record Cipher : Type 0 where
  -- AES.encrypt(value, secret).toString(), with the salt that it draws: salt, value, secret.
  pub aes_encrypt : ℕ → String → String → String
  -- AES.decrypt(value, secret).toString(Utf8): value, secret.
  pub aes_decrypt : String → String → Result String
  pub encode_uri_component : String → String
  pub decode_uri_component : String → Result String

pub record CipherLaws (c : Cipher) : Type 0 where
  pub aes_decrypt-aes_encrypt :
      (salt : ℕ) (value secret : String)
      → c.aes_decrypt (c.aes_encrypt salt value secret) secret ≡ ok value
  pub decode-encode :
      (value : String) → c.decode_uri_component (c.encode_uri_component value) ≡ ok value
  -- What AES makes is Base64, without a percent sign to decode.
  pub decode-aes_encrypt :
      (salt : ℕ) (value secret : String)
      → c.decode_uri_component (c.aes_encrypt salt value secret)
        ≡ ok (c.aes_encrypt salt value secret)

module _ (c : Cipher) where
  unfoldable pub encrypt_primary_key : ℕ → String → String → String
  encrypt_primary_key salt value secret = c.encode_uri_component (c.aes_encrypt salt value secret)

  abbrev decrypt_decoded : String → Result String → Result String
  decrypt_decoded secret (ok value) = c.aes_decrypt value secret
  decrypt_decoded secret (throw e) = throw e

  unfoldable pub decrypt_primary_key : String → String → Result String
  decrypt_primary_key value secret = decrypt_decoded secret (c.decode_uri_component value)

  pub decrypt_primary_key-encrypt_primary_key :
      (laws : CipherLaws c) (salt : ℕ) (value secret : String)
      → decrypt_primary_key (encrypt_primary_key salt value secret) secret ≡ ok value
  unfolding decrypt_primary_key encrypt_primary_key
  decrypt_primary_key-encrypt_primary_key laws salt value secret =
      rw (laws.decode-encode (c.aes_encrypt salt value secret))
        (laws.aes_decrypt-aes_encrypt salt value secret)

  -- The ciphers of the platform with these two, and their law.
  abbrev pub with_cipher : Crypto → Crypto
  with_cipher crypto = record crypto {
    encrypt = encrypt_primary_key;
    decrypt = decrypt_primary_key;
  }

  pub with_cipher-CryptoLaws :
      (laws : CipherLaws c) (crypto : Crypto) → CryptoLaws crypto → CryptoLaws (with_cipher crypto)
  with_cipher-CryptoLaws laws crypto held = record {
    decrypt-encrypt = decrypt_primary_key-encrypt_primary_key laws;
    verify-sign = held.verify-sign;
  }
