-- ===== src/Health/Tests.antt =====
-- The endpoint with a checker in memory, whose report is the list of the indicators.
use personal_blog_service.Common.{◌≡◌, refl, Bool, true, false, List, [], ◌∷◌}
use personal_blog_service.Health.{
  raised_value, answered, rejected, Indication, healthy, unhealthy, is_healthy, Checked, passed,
  unavailable, is_passed, all_passed, Terminus, TerminusLaws, report, check,
}
use personal_blog_service.Health.Status.{status-check}

abbrev judged : List Indication → Bool → Checked (List Indication)
judged is true = passed is
judged is false = unavailable is

abbrev memory : Terminus
memory = record { Report = List Indication; check = λ is. judged is (all_passed is) }

is_passed-judged : (is : List Indication) (b : Bool) → is_passed (judged is b) ≡ b
is_passed-judged is true = refl
is_passed-judged is false = refl

memory_laws : TerminusLaws memory
memory_laws = record { check_passed = λ is. is_passed-judged is (all_passed is) }

abbrev database : Indication
database = healthy (record { key = "database"; is_up = true })

status-check_example : (check memory database answered).status ≡ 200
status-check_example = status-check memory memory_laws database answered

redis_down : check memory database (rejected raised_value) ≡ record {
  status = 503;
  body = report (
      database
      ∷ unhealthy "Redis health check failed: Unknown error"
          (record { key = "redis"; is_up = false })
      ∷ []);
}
unfolding check is_healthy
redis_down = refl
