-- ===== src/Encryption/Tests.antt =====
-- Responses whose keys are encrypted by a cipher that hides nothing.
use personal_blog_service.Common.{refl, some, true}
use personal_blog_service.Auth.Memory.{platform}
use personal_blog_service.Encryption.Values.{undefined, text, number, end, field, Instance, get}
use personal_blog_service.Encryption.{encrypt_object}
use personal_blog_service.Encryption.Shown.{Shown, encrypt_object-Shown}
use personal_blog_service.Encryption.Posts.{marked}

-- A post without an id, whose owner is hidden.
abbrev draft : Instance
draft = record {
  class = some "PostDto";
  fields = field "postId" undefined (field "postUid" (text "ann") (field "hits" (number 3) end));
}

encrypt_object-Shown_example :
    Shown platform.crypto "pk" true
      (text "ann")
      (get "postUid" (encrypt_object platform.crypto "pk" marked draft 5).0.fields)
encrypt_object-Shown_example =
    encrypt_object-Shown platform.crypto "pk" marked draft "PostDto" "postUid" 5 refl
      (refl, (refl, tt))
