-- ===== src/Auth/Guard/Mixed.antt =====
-- What the guard does not ask of the two tokens: that they are of one user, and of two kinds.
use personal_blog_service.Exec.{Result, pure, caught}
use personal_blog_service.Auth.Platform.{Platform, State}
use personal_blog_service.Auth.Jwt.{Verified, failed}

module _ (p : Platform) where
  abbrev caught_all : {A : Type 0} → Result (Verified A) → State p → Result (Verified A) × State p
  caught_all = caught (λ e. pure (failed e))
