-- ===== src/Auth/Memory.antt =====
-- The platform in memory: it shows that the laws can hold, and the tests run on it. Its ciphers
-- and tokens hide nothing.
use personal_blog_service.Common.{ℕ, String, ◌⊕◌, str_eq, refl, Option, none, some, if◌then◌else◌}
use personal_blog_service.Failure.Exceptions.{error}
use personal_blog_service.Exec.{Result, ok, throw}
use personal_blog_service.Orm.Memory.{table, table_laws}
use personal_blog_service.Auth.Platform.{
  Claims, Crypto, Platform, PlatformLaws, State, UserAuthEntity, user, key_of,
}

abbrev verify : ℕ → Option String → String → Result Claims
verify now none secret = throw (error "JsonWebTokenError" "jwt must be provided")
verify now (some token) secret = ok (record { uid = token })

abbrev plain : Crypto
plain = record {
  encrypt = λ salt value secret. value;
  decrypt = λ value secret. ok value;
  sha256 = λ text. "#" ⊕ text;
  sign = λ now claims secret issuer subject lifetime. claims.uid;
  verify = verify;
  verify_google = λ now token. ok (some token);
}

abbrev pub platform : Platform
platform = record {
  users = table key_of;
  crypto = plain;
  config = record {
    pk_secret_key = "pk";
    jwt_secret_key = "jwt";
    jwt_issuer = "blog";
    access_token_expire_time = 3600000;
    refresh_token_expire_time = 86400000;
  };
}

pub platform_laws : PlatformLaws platform
platform_laws = record {
  users = table_laws key_of;
  crypto = record {
    decrypt-encrypt = λ salt value secret. refl;
    verify-sign = λ signed now claims secret issuer subject lifetime h. refl;
  };
}

abbrev pub ann : UserAuthEntity
ann = record {
  uid = "ann";
  password = "pw";
  salt = "1";
  social_yn = "N";
  refresh_token = "ann";
  user_role = user;
}

-- One account and an empty cache.
abbrev pub one : State platform
one = record {
  users = record { rows = λ j. if str_eq j "ann" then some ann else none; results = λ j. none };
  now = 1000;
  entropy = 0;
}
