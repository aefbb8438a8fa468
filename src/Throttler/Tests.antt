-- ===== src/Throttler/Tests.antt =====
-- The rate limiter over a Redis server in memory, and its theorems at concrete inputs.
use personal_blog_service.Common.{
  ℕ, ◌<◌, min, String, ◌≡◌, refl, ◌≢◌, ◌↔◌, none, some, [], ◌∷◌, arith,
}
use personal_blog_service.Redis.Memory
use personal_blog_service.Web.{single}
use personal_blog_service.Throttler.{
  increment, increment_script, counter_key, block_key, get_tracker,
}
use personal_blog_service.Throttler.Script.{live, counter, run}
use personal_blog_service.Throttler.Window.{admitted, admitted-eq-min}
use personal_blog_service.Throttler.Expiry.{get_tracker_apart, unblocked_fresh, counter_expires}

abbrev idle : Memory.script.State
idle = Memory.empty

-- Five requests within a second against a limit of three: three pass.
five_against_three :
    admitted Memory.script "k" 60000 3 60000 (0 ∷ 100 ∷ 200 ∷ 300 ∷ 400 ∷ []) idle ≡ 3
unfolding admitted increment increment_script counter_key block_key
five_against_three = refl

admitted-eq-min_example :
    admitted Memory.script "k" 60000 3 60000 (0 ∷ 100 ∷ 200 ∷ 300 ∷ 400 ∷ []) idle ≡ min 5 3
admitted-eq-min_example =
    admitted-eq-min Memory.script "k" 60000 3 60000 Memory.script_laws 0
      (100 ∷ 200 ∷ 300 ∷ 400 ∷ []) idle refl refl (omega arith) (omega arith) (omega arith)

-- A client that has just been blocked.
abbrev stopped : Memory.script.State
stopped =
    Memory.write (block_key "k") (live 1 60000) (Memory.write (counter_key "k") (live 4 59000) idle)

unblocked_fresh_example :
    let r =
      (run Memory.script Memory.script_laws "k" 60000 3 60000
        (Memory.script.wait 60000 stopped)).0 in
    (r.is_blocked ≡ 0) × (r.total_hits ≡ 1)
unfolding counter_key block_key
unblocked_fresh_example =
    unblocked_fresh Memory.script Memory.script_laws "k" 60000 3 60000 stopped 4 59000 1 60000 60000
      refl refl (omega arith) (omega arith) (omega arith) (omega arith)

-- A counter that a crash has left without an expiry.
abbrev stale : Memory.script.State
stale = Memory.write (counter_key "k") (some (record { value = 7; left = none })) idle

counter_expires_example :
    (t : ℕ) × (counter Memory.script "k"
        (run Memory.script Memory.script_laws "k" 60000 3 60000 stale).1
      ≡ live 8 t)
    × (0 < t)
unfolding counter_key block_key
counter_expires_example =
    counter_expires Memory.script Memory.script_laws "k" 60000 3 60000 stale
      (some (record { value = 7; left = none })) refl refl (omega arith) (omega arith)

get_tracker_apart_example :
    (get_tracker (some (single "a")) "::1" ≢ get_tracker none "::1")
    × (get_tracker (some (single "a")) "::1" ≡ get_tracker (some (single "a")) "::1"
        ↔ ◌≡◌ {A = String} "a" "a")
    × (get_tracker none "::1" ≡ get_tracker none "::1" ↔ ◌≡◌ {A = String} "::1" "::1")
get_tracker_apart_example = get_tracker_apart "a" "a" "::1" "::1"
