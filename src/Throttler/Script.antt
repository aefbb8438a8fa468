-- ===== src/Throttler/Script.antt =====
-- What one run of INCREMENT_SCRIPT does to the two keys of a client.
use text.Mathlib.TextLemmas.{length-append}
use Prim.Native.String.{count}
use personal_blog_service.Common.{
  ℕ, ◌+◌, ◌<◌, ◌≤◌, String, str_eq, eq_iff, eq_refl, ◌≡◌, refl, ◌∙◌, ◌≢◌, ap, false, Option, none,
  some, arith, lt→ltb, le→ltb-false,
}
use personal_blog_service.Redis.{Entry, pos, negsuc, RedisScript, RedisScriptLaws}
use personal_blog_service.Throttler.{limited}
use personal_blog_service.Throttler.{ScriptReply, counter_key, block_key, increment_script}

-- A key has a value and some milliseconds left.
abbrev pub live : ℕ → ℕ → Option (Entry ℕ)
live v t = some (record { value = v; left = some t })

counter_key-ne-block_key : (key : String) → counter_key key ≢ block_key key
unfolding counter_key block_key
counter_key-ne-block_key key e =
    omega (arith, ap count e, length-append "throttle:" key, length-append "throttle:block:" key)

module _ (key : String) where
  pub counter_not_block : str_eq (counter_key key) (block_key key) ≡ false
  counter_not_block =
      ground (arith, eq_iff (counter_key key) (block_key key), counter_key-ne-block_key key)

  pub block_not_counter : str_eq (block_key key) (counter_key key) ≡ false
  block_not_counter =
      ground (arith, eq_iff (block_key key) (counter_key key), counter_key-ne-block_key key)

-- What Redis holds under the two keys of a client.
abbrev pub counter : (redis : RedisScript) → String → redis.State → Option (Entry ℕ)
counter redis key s = redis.entry s (counter_key key)

abbrev pub block : (redis : RedisScript) → String → redis.State → Option (Entry ℕ)
block redis key s = redis.entry s (block_key key)

module _ (redis : RedisScript) (laws : RedisScriptLaws redis) (key : String)
    (ttl limit block_duration : ℕ) where
  open redis use {State}

  abbrev pub run : State → ScriptReply × State
  run s = increment_script redis (counter_key key) (block_key key) ttl limit block_duration s

  -- A blocked key is left as it is.
  pub run_blocked :
      (s : State) (v u : ℕ)
      → block redis key s ≡ live v u
      → 0 < u
      → ((run s).1 ≡ s) × ((run s).0.is_blocked ≡ 1) × ((run s).0.time_to_block_expire ≡ pos u)
  unfolding increment_script
  run_blocked s v u e h = rw (laws.pttl_lem (block_key key) s, e, lt→ltb 0 u h) (refl, refl, refl)

  module _ (s : State) (c t : ℕ) (free : block redis key s ≡ none)
      (e : counter redis key s ≡ live c t) (h : 0 < t) where
    abbrev bumped : State
    bumped = (redis.incr (counter_key key) s).1

    total_bumped : (redis.incr (counter_key key) s).0 ≡ c + 1
    total_bumped = laws.incr_lem (counter_key key) s ∙ rw e refl

    counter-bumped : counter redis key bumped ≡ live (c + 1) t
    counter-bumped =
        rw (laws.entry-incr (counter_key key) s (counter_key key), eq_refl (counter_key key), e)
          refl

    block-bumped : block redis key bumped ≡ none
    block-bumped =
        rw (laws.entry-incr (counter_key key) s (block_key key), counter_not_block key, free) refl

    left_bumped : redis.pttl (counter_key key) bumped ≡ pos t
    left_bumped = laws.pttl_lem (counter_key key) bumped ∙ rw counter-bumped refl

    run_counted : run s ≡ limited redis (block_key key) limit block_duration (c + 1) (pos t) bumped
    unfolding increment_script
    run_counted =
        rw (laws.pttl_lem (block_key key) s, free, left_bumped, total_bumped, lt→ltb 0 t h) refl

    -- A live counter below the limit goes up by one, and keeps its time.
    pub run_below :
        c < limit
        → ((run s).0.is_blocked ≡ 0)
          × ((run s).0.total_hits ≡ c + 1)
          × (counter redis key (run s).1 ≡ live (c + 1) t)
          × (block redis key (run s).1 ≡ none)
    run_below below =
        rw (run_counted, le→ltb-false limit (c + 1) (omega arith))
          (refl, refl, counter-bumped, block-bumped)

    -- The request that passes the limit blocks the key.
    pub run_over :
        limit ≤ c
        → 0 < block_duration
        → ((run s).0.is_blocked ≡ 1)
          × ((run s).0.total_hits ≡ c + 1)
          × (counter redis key (run s).1 ≡ live (c + 1) t)
          × (block redis key (run s).1 ≡ live 1 block_duration)
    run_over over positive =
        rw (run_counted, lt→ltb limit (c + 1) (omega arith))
          (
            refl,
            refl,
            rw
                (
                  laws.entry-set_px (block_key key) 1 block_duration bumped (counter_key key)
                      positive,
                  block_not_counter key,
                )
                counter-bumped,
            rw
                (
                  laws.entry-set_px (block_key key) 1 block_duration bumped (block_key key)
                      positive,
                  eq_refl (block_key key),
                )
                refl,
          )

  module _ (s : State) (free : block redis key s ≡ none) (e : counter redis key s ≡ none)
      (window : 0 < ttl) where
    abbrev opened : State
    opened = (redis.incr (counter_key key) s).1

    total_opened : (redis.incr (counter_key key) s).0 ≡ 1
    total_opened = laws.incr_lem (counter_key key) s ∙ rw e refl

    counter-opened : counter redis key opened ≡ some (record { value = 1; left = none })
    counter-opened =
        rw (laws.entry-incr (counter_key key) s (counter_key key), eq_refl (counter_key key), e)
          refl

    block-opened : block redis key opened ≡ none
    block-opened =
        rw (laws.entry-incr (counter_key key) s (block_key key), counter_not_block key, free) refl

    left_opened : redis.pttl (counter_key key) opened ≡ negsuc 0
    left_opened = laws.pttl_lem (counter_key key) opened ∙ rw counter-opened refl

    abbrev timed : State
    timed = redis.pexpire (counter_key key) ttl opened

    counter-timed : counter redis key timed ≡ live 1 ttl
    counter-timed =
        rw
          (
            laws.entry-pexpire (counter_key key) ttl opened (counter_key key) window,
            eq_refl (counter_key key),
            counter-opened,
          )
          refl

    block-timed : block redis key timed ≡ none
    block-timed =
        rw
          (
            laws.entry-pexpire (counter_key key) ttl opened (block_key key) window,
            counter_not_block key,
          )
          block-opened

    run_opened : run s ≡ limited redis (block_key key) limit block_duration 1 (pos ttl) timed
    unfolding increment_script
    run_opened = rw (laws.pttl_lem (block_key key) s, free, left_opened, total_opened) refl

    -- The first request of a window counts 1 and starts the window's time.
    pub run_fresh :
        0 < limit
        → ((run s).0.is_blocked ≡ 0)
          × ((run s).0.total_hits ≡ 1)
          × (counter redis key (run s).1 ≡ live 1 ttl)
          × (block redis key (run s).1 ≡ none)
    run_fresh room =
        rw (run_opened, le→ltb-false limit 1 room) (refl, refl, counter-timed, block-timed)
