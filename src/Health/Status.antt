-- ===== src/Health/Status.antt =====
-- What the status of the health endpoint says.
use personal_blog_service.Common.{◌≡◌, refl, sym, Bool, ◌&&◌, if◌then◌else◌}
use personal_blog_service.Health.{
  Ping, answered, rejected, Indication, is_healthy, has_passed, is_answered, Checked, passed,
  unavailable, broken, is_passed, Terminus, TerminusLaws, reply, check,
}

status-reply :
    {Report : Type 0} (c : Checked Report) (b : Bool)
    → is_passed c ≡ b
    → (reply c).status ≡ (if b then 200 else 503)
status-reply (passed r) b h = rw (sym h) refl
status-reply (unavailable r) b h = rw (sym h) refl
status-reply (broken e) b h = rw (sym h) refl

-- The endpoint answers 200 if the check of the database passes and Redis answers the ping, and 503
-- otherwise, whatever was thrown.
pub status-check :
    (t : Terminus) (laws : TerminusLaws t) (database : Indication) (ping : Ping)
    → (check t database ping).status
      ≡ (if has_passed database && is_answered ping then 200 else 503)
unfolding check is_healthy
status-check t laws database answered = status-reply _ _ (laws.check_passed _)
status-check t laws database (rejected e) = status-reply _ _ (laws.check_passed _)
