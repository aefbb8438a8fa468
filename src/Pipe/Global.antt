-- ===== src/Pipe/Global.antt =====
-- src/pipe/path-param-aware-validation.pipe.ts: the pipe that every argument of a route passes before
-- its own pipes. ValidationPipe, which it extends, is no part of the repository.
use personal_blog_service.Common.{String, ◌≡◌, refl}
use personal_blog_service.Exec.{Result, ok, throw}
use personal_blog_service.Auth.Platform.{Crypto}
use personal_blog_service.Pipe.{transform}

-- metadata.type
pub data ArgumentType : Type 0 where
  body query param custom : ArgumentType

-- PathParamAwareValidationPipe.transform; `super` is that of ValidationPipe.
unfoldable pub transform_argument :
    {A : Type 0} → (ArgumentType → A → Result A) → ArgumentType → A → Result A
transform_argument super param value = ok value
transform_argument super body value = super body value
transform_argument super query value = super query value
transform_argument super custom value = super custom value

abbrev pub then_transform : Crypto → String → Result String → Result String
then_transform crypto secret (ok value) = transform crypto secret value
then_transform crypto secret (throw e) = throw e

-- Whatever ValidationPipe does, DecryptPrimaryKeyPipe reads the text of the path as it came.
pub transform-transform_argument :
    (super : ArgumentType → String → Result String) (crypto : Crypto) (secret value : String)
    → then_transform crypto secret (transform_argument super param value)
      ≡ transform crypto secret value
unfolding transform_argument
transform-transform_argument super crypto secret value = refl
