-- ===== src/Utils/Time.antt =====
-- src/utils/time.utils.ts: durations in milliseconds.
use personal_blog_service.Common.{ℕ, ◌+◌, ◌*◌}

abbrev second : ℕ
second = 1000

abbrev minute : ℕ
minute = 60 * second

abbrev hour : ℕ
hour = 60 * minute

abbrev pub get_tic_time_hms : ℕ → ℕ → ℕ → ℕ
get_tic_time_hms hours minutes seconds = hours * hour + minutes * minute + seconds * second

abbrev pub get_tic_time_ms : ℕ → ℕ → ℕ
get_tic_time_ms minutes seconds = minutes * minute + seconds * second

abbrev pub get_tic_time_s : ℕ → ℕ
get_tic_time_s seconds = seconds * second
