-- ===== src/Throttler.antt =====
-- src/throttler: the rate limiter's counters in Redis, and the tracker that a request counts for.
pub mod Script
pub mod Window
pub mod Expiry
mod Tests
use personal_blog_service.Common.{
  ℕ, zero, suc, ◌+◌, ◌/◌, ◌==◌, ltb, String, ◌⊕◌, Bool, true, false, Option, none, some,
  if◌then◌else◌,
}
use personal_blog_service.Redis.{ℤ, pos, negsuc, RedisScript}
use personal_blog_service.Web.{HeaderValue, single, array}

-- The four numbers that INCREMENT_SCRIPT returns; the times are in milliseconds.
pub record ScriptReply : Type 0 where
  pub total_hits : ℕ
  pub time_to_expire : ℤ
  pub is_blocked : ℕ
  pub time_to_block_expire : ℤ

-- What `increment` resolves to; the times are in seconds.
pub record ThrottlerStorageRecord : Type 0 where
  pub total_hits : ℕ
  pub time_to_expire : ℕ
  pub is_blocked : Bool
  pub time_to_block_expire : ℕ

-- n > 0
abbrev pub is_positive : ℤ → Bool
is_positive (pos n) = ltb 0 n
is_positive (negsuc _) = false

-- n < 0
abbrev pub is_negative : ℤ → Bool
is_negative (pos _) = false
is_negative (negsuc _) = true

-- tonumber(…) or fallback
abbrev pub or_else : Option ℕ → ℕ → ℕ
or_else none fallback = fallback
or_else (some n) fallback = n

-- ms > 0 ? Math.ceil(ms / 1000) : 0
unfoldable pub ms_to_seconds : ℤ → ℕ
ms_to_seconds (pos n) = if ltb 0 n then (n + 999) / 1000 else 0
ms_to_seconds (negsuc _) = 0

unfoldable pub counter_key : String → String
counter_key key = "throttle:" ⊕ key

unfoldable pub block_key : String → String
block_key key = "throttle:block:" ⊕ key

abbrev pub to_record : ScriptReply → ThrottlerStorageRecord
to_record r = record {
  total_hits = r.total_hits;
  time_to_expire = ms_to_seconds r.time_to_expire;
  is_blocked = r.is_blocked == 1;
  time_to_block_expire = ms_to_seconds r.time_to_block_expire;
}

module _ (redis : RedisScript) where
  open redis use {State, get, pttl, incr, pexpire, set_px}

  -- The branch of a blocked key: nothing is counted.
  abbrev pub blocked : String → ℕ → ℤ → State → ScriptReply × State
  blocked counter limit block_pttl s =
      let left = pttl counter s in
      (
        record {
          total_hits = or_else (get counter s) limit;
          time_to_expire = if is_negative left then block_pttl else left;
          is_blocked = 1;
          time_to_block_expire = block_pttl;
        },
        s,
      )

  -- A counter with no time left gets the window's length.
  abbrev pub with_expiry : String → ℕ → ℤ → State → ℤ × State
  with_expiry counter ttl left s =
      if is_positive left then (left, s) else (pos ttl, pexpire counter ttl s)

  -- Over the limit the block key is set.
  abbrev pub limited : String → ℕ → ℕ → ℕ → ℤ → State → ScriptReply × State
  limited block limit block_duration total_hits time_to_expire s =
      if ltb limit total_hits
      then (
        record {
          total_hits = total_hits;
          time_to_expire = time_to_expire;
          is_blocked = 1;
          time_to_block_expire = pos block_duration;
        },
        set_px block 1 block_duration s,
      )
      else (
        record {
          total_hits = total_hits;
          time_to_expire = time_to_expire;
          is_blocked = 0;
          time_to_block_expire = pos 0;
        },
        s,
      )

  abbrev pub counted : String → String → ℕ → ℕ → ℕ → State → ScriptReply × State
  counted counter block ttl limit block_duration s =
      let (total_hits, s1) = incr counter s in
      let (time_to_expire, s2) = with_expiry counter ttl (pttl counter s1) s1 in
      limited block limit block_duration total_hits time_to_expire s2

  unfoldable pub increment_script : String → String → ℕ → ℕ → ℕ → State → ScriptReply × State
  increment_script counter block ttl limit block_duration s =
      let block_pttl = pttl block s in
      if is_positive block_pttl
      then blocked counter limit block_pttl s
      else counted counter block ttl limit block_duration s

  unfoldable pub increment : String → ℕ → ℕ → ℕ → State → ThrottlerStorageRecord × State
  unfolding ms_to_seconds
  increment key ttl limit block_duration s =
      let (reply, s') =
        increment_script (counter_key key) (block_key key) ttl limit block_duration s in
      (to_record reply, s')

-- CustomThrottlerGuard.getTracker: the user that AuthGuard has injected, or else the IP.
unfoldable pub get_tracker : Option HeaderValue → String → String
get_tracker (some (single user_id)) ip = "user:" ⊕ user_id
get_tracker (some (array _)) ip = "ip:" ⊕ ip
get_tracker none ip = "ip:" ⊕ ip
