-- ===== src/Pipe.antt =====
-- src/pipe/decrypt-primary-key.pipe.ts: an encrypted key of a path becomes the key itself.
pub mod Keys
pub mod Global
mod Tests
use personal_blog_service.Common.{String, str_eq, if◌then◌else◌}
use personal_blog_service.Failure.Exceptions.{error, invalid_encrypted_parameter}
use personal_blog_service.Exec.{Result, ok, throw}
use personal_blog_service.Auth.Platform.{Crypto}

-- An empty text is no key.
abbrev pub non_empty : String → Result String
non_empty decrypted =
    if str_eq decrypted ""
    then throw (error "Error" "Decryption produced empty result")
    else ok decrypted

abbrev pub bound : Result String → Result String
bound (ok decrypted) = non_empty decrypted
bound (throw e) = throw e

-- The catch: whatever was thrown becomes one exception.
abbrev pub or_invalid : Result String → Result String
or_invalid (ok decrypted) = ok decrypted
or_invalid (throw _) = throw invalid_encrypted_parameter

unfoldable pub transform : Crypto → String → String → Result String
transform crypto pk_secret_key value = or_invalid (bound (crypto.decrypt value pk_secret_key))
