-- ===== src/Controllers/Named.antt =====
-- Whom a validated trusted header names.
use personal_blog_service.Common.{String, eq_iff, ◌≡◌, Option, none, some, arith}
use personal_blog_service.Exec.{ok}
use personal_blog_service.Controllers.{authenticated_user_validation}

pub caller_of :
    (caller : Option String) (uid : String)
    → authenticated_user_validation caller ≡ ok uid
    → caller ≡ some uid
unfolding authenticated_user_validation
caller_of none uid h = ground arith
caller_of (some u) uid h = ground (arith, eq_iff u "")
