-- ===== src/Interceptor/Tests.antt =====
-- The interceptor over a Redis server in memory: tests, and the theorems at concrete requests.
use personal_blog_service.Common.{
  ℕ, ◌+◌, String, ◌≡◌, refl, ◌≢◌, true, false, Option, some, [], ◌∷◌, arith, ◌==◌, if◌then◌else◌,
}
use personal_blog_service.Failure.Exceptions.{error, post_not_found, bad_request, idempotent_replay}
use personal_blog_service.Failure.Filters.{respond}
use personal_blog_service.Exec.{ok, throw}
use personal_blog_service.Redis.Memory
use personal_blog_service.Web.{single, array, Request}
use personal_blog_service.Idempotency.{
  Backend, BackendLaws, State, Action, IdempotencyRecord, build_key, get, set_pending,
  set_completed,
}
use personal_blog_service.Idempotency.Laws.{after_get}
use personal_blog_service.Idempotency.Up.{IsUp}
use personal_blog_service.Interceptor.{
  is_uuid_v4, is_safe_method, extract_key, extract_auth_user_id, to_failure, on_lookup, on_record,
  on_success, on_acquired, handle, intercept,
}
use personal_blog_service.Interceptor.Kept.{locked, second}
use personal_blog_service.Interceptor.Replay.{replay_success, replay_failure}
use personal_blog_service.Interceptor.Once.{Ran, intercept-Ran}
use personal_blog_service.Interceptor.Outcome.{respond-replayed_ne, replayed}
use personal_blog_service.Interceptor.Race.{Phase, arrived, missed, running, answered, Run}
use personal_blog_service.Interceptor.Keys.{build_key-injective}

-- Bodies are texts, records are stored as they are, and the handlers count their calls.
abbrev memory : Backend
memory = record {
  Body = String;
  Text = IdempotencyRecord String;
  App = ℕ;
  codec = record { stringify = λ r. r; parse = some };
  redis = Memory.client (IdempotencyRecord String);
}

abbrev memory_laws : BackendLaws memory
memory_laws = record {
  codec = record { parse-stringify = λ r. refl };
  redis = Memory.client_laws (IdempotencyRecord String);
}

memory_up : IsUp memory
memory_up = record {
  gets = λ k s. (_, refl);
  sets = λ k v seconds s. refl;
  sets_new = Memory.client_sets_new (IdempotencyRecord String);
}

abbrev key : String
key = "0b1c7d1e-5f4a-4c3b-9d2e-1a2b3c4d5e6f"

abbrev post : Request
post = record {
  method = "POST";
  path = "/posts";
  idempotency_key = some (single key);
  authenticated_user = some (single "a@b.c");
}

abbrev start : State memory
start = record {
  redis = Memory.empty;
  date = "2026-06-04T00:00:00.000Z";
  headers = [];
  status_code = 201;
  app = 0;
}

-- A handler that counts itself and returns, and one that throws.
abbrev create : Action memory (Option String)
create w = (ok (some "Success!"), record w { app = w.app + 1 })

abbrev missing : Action memory (Option String)
missing w = (throw (post_not_found 7), record w { app = w.app + 1 })

uuid_accepted : is_uuid_v4 key ≡ true
unfolding is_uuid_v4
uuid_accepted = refl

uuid_refused : is_uuid_v4 "0b1c7d1e-5f4a-1c3b-9d2e-1a2b3c4d5e6f" ≡ false
unfolding is_uuid_v4
uuid_refused = refl

-- The first request creates, the second replays, and the handler ran once.
twice :
    let (r, w) = intercept memory false post create (intercept memory false post create start).1 in
    (r ≡ ok (some "Success!")) × (w.app ≡ 1)
unfolding intercept handle on_lookup on_record on_acquired on_success is_uuid_v4 is_safe_method
    extract_key extract_auth_user_id get set_pending set_completed build_key
twice = (refl, refl)

replay_success_example :
    ((handle memory "a@b.c" key post create start).0 ≡ ok (some "Success!"))
    × (handle memory "a@b.c" key post missing (second memory "a@b.c" key post create start 1000) ≡ (
      ok (some "Success!"),
      after_get memory "a@b.c" key (second memory "a@b.c" key post create start 1000),
    ))
unfolding set_pending
replay_success_example =
    replay_success memory memory_laws memory_up "a@b.c" key post create start post missing 1000
      (some "Success!") (create (locked memory "a@b.c" key post start)).1 refl refl refl refl
      (omega arith)

replay_failure_example :
    ((handle memory "a@b.c" key post missing start).0 ≡ throw (post_not_found 7))
    × (handle memory "a@b.c" key post create (second memory "a@b.c" key post missing start 86399999)
        ≡ (
          throw (
              idempotent_replay
                (to_failure (post_not_found 7)).error_code
                (to_failure (post_not_found 7)).message),
          after_get memory "a@b.c" key (second memory "a@b.c" key post missing start 86399999),
        ))
unfolding set_pending
replay_failure_example =
    replay_failure memory memory_laws memory_up "a@b.c" key post missing start post create 86399999
      (post_not_found 7) (missing (locked memory "a@b.c" key post start)).1 refl refl refl refl
      (omega arith)

respond-replayed_ne_example :
    respond (replayed (error "TypeError" "x")) ≢ respond (error "TypeError" "x")
respond-replayed_ne_example = respond-replayed_ne "TypeError" "x"

-- A world in which the key holds a pending record of POST /posts.
abbrev busy : State memory
busy = locked memory "a@b.c" key post start

abbrev deletion : Request
deletion = record post { method = "DELETE" }

abbrev malformed : Request
malformed = record post { idempotency_key = some (array ("k" ∷ [])) }

malformed_refused :
    intercept memory false malformed create start
    ≡ (throw (bad_request "Idempotency-Key must be a valid UUID v4."), start)
unfolding intercept is_safe_method extract_key is_uuid_v4
malformed_refused = refl

-- The phases with that of request `i` replaced.
abbrev replaced : (ℕ → Phase) → ℕ → Phase → ℕ → Phase
replaced old i p j = if j == i then p else old j

-- Two requests find nothing, request 0 wins the lock and request 1 loses it.
abbrev all_arrived : ℕ → Phase
all_arrived i = arrived

abbrev both_missed : ℕ → Phase
both_missed = replaced (replaced all_arrived 0 missed) 1 missed

abbrev one_running : ℕ → Phase
one_running = replaced (replaced both_missed 0 running) 1 answered

abbrev before : Run memory "a@b.c" key
before = record { world = start; phase = all_arrived; entries = 0 }

abbrev after_race : Run memory "a@b.c" key
after_race = record { world = busy; phase = one_running; entries = 1 }

build_key-injective_example : (◌≡◌ {A = String} "a" "a") × (key ≡ key)
unfolding is_uuid_v4
build_key-injective_example = build_key-injective "a" "a" key key refl refl refl

intercept-Ran_example : Ran memory create start (intercept memory false post create start)
intercept-Ran_example = intercept-Ran memory create start false post
