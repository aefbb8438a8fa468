-- ===== src/Pipe/Tests.antt =====
-- The pipe with ciphers that hide nothing, at a concrete key.
use personal_blog_service.Common.{◌≡◌, refl}
use personal_blog_service.Failure.Exceptions.{invalid_encrypted_parameter}
use personal_blog_service.Exec.{throw}
use personal_blog_service.Auth.Memory.{platform}
use personal_blog_service.Pipe.{transform}

refused : transform platform.crypto "pk" "" ≡ throw invalid_encrypted_parameter
unfolding transform
refused = refl
