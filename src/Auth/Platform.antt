-- ===== src/Auth/Platform.antt =====
-- The rows of USER_AUTH, and what the authentication stands on: the table, the libraries for
-- ciphers, hashes and tokens, and the configuration.
use personal_blog_service.Common.{ℕ, ◌+◌, ◌≤◌, String, ◌≡◌, Option, some}
use personal_blog_service.Exec.{Exec, Result, ok}
use personal_blog_service.Orm.{Table, TableLaws}

pub data UserRole : Type 0 where
  admin user : UserRole

-- USER_AUTH, less the two timestamps that the database fills in.
pub record UserAuthEntity : Type 0 where
  pub uid : String
  pub password : String
  pub salt : String
  pub social_yn : String
  pub refresh_token : String
  pub user_role : UserRole

pub record UserSessionEntity : Type 0 where
  pub uid : String
  pub refresh_token : String
  pub user_role : UserRole

pub record JwtDto : Type 0 where
  pub access_token : String
  pub refresh_token : String

pub record UserAuthRequestDto : Type 0 where
  pub uid : String
  pub password : String

-- The payload that the service signs and reads: the encrypted uid.
pub record Claims : Type 0 where
  pub uid : String

-- authConfig; the expiry times as jsonwebtoken reads them, in milliseconds.
pub record AuthConfig : Type 0 where
  pub pk_secret_key : String
  pub jwt_secret_key : String
  pub jwt_issuer : String
  pub access_token_expire_time : ℕ
  pub refresh_token_expire_time : ℕ

-- crypto-js, jsonwebtoken and google-auth-library.
pub record Crypto : Type 0 where
  -- encodeURIComponent(AES.encrypt(value, secret)), with the random salt that AES.encrypt draws:
  -- salt, value, secret.
  pub encrypt : ℕ → String → String → String
  -- AES.decrypt(decodeURIComponent(value), secret).toString(Utf8): value, secret.
  pub decrypt : String → String → Result String
  -- SHA256(text).toString(Hex)
  pub sha256 : String → String
  -- jwt.sign at a time: time, payload, secret, issuer, subject, lifetime.
  pub sign : ℕ → Claims → String → String → String → ℕ → String
  -- jwt.verify at a time: time, token, secret. `none` is undefined.
  pub verify : ℕ → Option String → String → Result Claims
  -- The email of the payload of a Google ID token, verified at a time.
  pub verify_google : ℕ → String → Result (Option String)

pub record CryptoLaws (c : Crypto) : Type 0 where
  pub decrypt-encrypt :
      (salt : ℕ) (value secret : String) → c.decrypt (c.encrypt salt value secret) secret ≡ ok value
  -- A token is good until its lifetime has passed, but for the second that its times are rounded
  -- down to.
  pub verify-sign :
      (signed now : ℕ) (claims : Claims) (secret issuer subject : String) (lifetime : ℕ)
      → now + 1000 ≤ signed + lifetime
      → c.verify now (some (c.sign signed claims secret issuer subject lifetime)) secret ≡ ok claims

pub record Platform : Type 1 where
  pub users : Table UserAuthEntity
  pub crypto : Crypto
  pub config : AuthConfig

abbrev pub key_of : UserAuthEntity → String
key_of e = e.uid

pub record PlatformLaws (p : Platform) : Type 0 where
  pub users : TableLaws p.users key_of
  pub crypto : CryptoLaws p.crypto

-- The state of the table, the time in milliseconds, and the source of random salts.
pub record Store (Users : Type 0) : Type 0 where
  pub users : Users
  pub now : ℕ
  pub entropy : ℕ

module _ (p : Platform) where
  abbrev pub State : Type 0
  State = Store p.users.State

  abbrev pub Action : Type 0 → Type 0
  Action = Exec State

  -- `await` of a query.
  abbrev pub query : {A : Type 0} → (p.users.State → Result A × p.users.State) → Action A
  query q s = let (r, users) = q s.users in (r, record s { users = users })

  -- A new random salt.
  abbrev pub fresh_salt : Action ℕ
  fresh_salt s = (ok s.entropy, record s { entropy = s.entropy + 1 })
