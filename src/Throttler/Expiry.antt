-- ===== src/Throttler/Expiry.antt =====
-- The times of the rate limit: counters always expire, a block that ends starts a new window, and
-- milliseconds are rounded up to seconds. The trackers keep users and addresses apart.
use Prim.Native.Char.{code}
use text.Mathlib.TextLemmas.{append_cancel_left, cons-append, head-eq_of_cons-eq}
use personal_blog_service.Common.{
  ℕ, zero, suc, ◌+◌, ◌*◌, ◌<◌, ◌≤◌, ltb, String, ◌⊕◌, eq_refl, ◌≡◌, refl, sym, lt→ltb, ◌∙◌, ◌≢◌,
  ◌↔◌, ap, Option, none, some, arith, Bool-cases, inl, inr,
}
use personal_blog_service.Redis.{ℤ, pos, Entry, RedisScript, RedisScriptLaws, incremented, pttl_of}
use personal_blog_service.Web.{single}
use personal_blog_service.Throttler.{
  ms_to_seconds, limited, with_expiry, increment_script, counter_key, block_key, get_tracker,
}
use personal_blog_service.Throttler.Script.{live, counter, block, run, run_fresh, block_not_counter}

-- A number of milliseconds is covered by its seconds, and by no fewer.
pub ms_to_seconds_bounds :
    (ms : ℕ)
    → 0 < ms
    → (ms ≤ ms_to_seconds (pos ms) * 1000) × (ms_to_seconds (pos ms) * 1000 < ms + 1000)
unfolding ms_to_seconds
ms_to_seconds_bounds ms h = ground arith

user_ne_ip : (u v : String) → "user:" ⊕ u ≢ "ip:" ⊕ v
user_ne_ip u v e =
    let same =
      ap code (head-eq_of_cons-eq (sym (cons-append "u" "ser:" u) ∙ e ∙ cons-append "i" "p:" v)) in
    omega arith

-- A user and an address never share a tracker, and two users, or two addresses without a user,
-- share one exactly if they are the same.
pub get_tracker_apart :
    (u u' ip ip' : String)
    → (get_tracker (some (single u)) ip ≢ get_tracker none ip')
      × (get_tracker (some (single u)) ip ≡ get_tracker (some (single u')) ip' ↔ u ≡ u')
      × (get_tracker none ip ≡ get_tracker none ip' ↔ ip ≡ ip')
unfolding get_tracker
get_tracker_apart u u' ip ip' = (
  user_ne_ip u ip',
  (append_cancel_left "user:" u u', λ e. rw e refl),
  (append_cancel_left "ip:" ip ip', λ e. rw e refl),
)

module _ (redis : RedisScript) (laws : RedisScriptLaws redis) (key : String)
    (ttl limit block_duration : ℕ) where
  open redis use {State, wait}

  counter-limited :
      (n : ℕ) (left : ℤ) (s : State)
      → 0 < block_duration
      → counter redis key (limited redis (block_key key) limit block_duration n left s).1
        ≡ counter redis key s
  counter-limited n left s positive = elim (Bool-cases (ltb limit n)) [
    | inl over ↦
        rw
          (
            over,
            laws.entry-set_px (block_key key) 1 block_duration s (counter_key key) positive,
            block_not_counter key,
          )
          refl
    | inr below ↦ rw below refl
  ]

  -- Once a block has ended, the next request is the first of a new window, if the counter was not
  -- set to outlive the block.
  pub unblocked_fresh :
      (s : State) (c t v u ms : ℕ)
      → counter redis key s ≡ live c t
      → block redis key s ≡ live v u
      → t ≤ u
      → u ≤ ms
      → 0 < ttl
      → 0 < limit
      → let r = (run redis laws key ttl limit block_duration (wait ms s)).0 in
        (r.is_blocked ≡ 0) × (r.total_hits ≡ 1)
  unblocked_fresh s c t v u ms e e' shorter ended window room =
      let free : block redis key (wait ms s) ≡ none =
        laws.entry-wait _ _ _ ∙ rw e' (ground arith) in
      let idle : counter redis key (wait ms s) ≡ none =
        laws.entry-wait _ _ _ ∙ rw e (ground arith) in
      let (passed, first, _, _) =
        run_fresh redis laws key ttl limit block_duration (wait ms s) free idle window room in
      (passed, first)

  ttl_set :
      (s : State) (v : ℕ) (left : Option ℕ)
      → counter redis key s ≡ some (record { value = v; left = left })
      → 0 < ttl
      → counter redis key (redis.pexpire (counter_key key) ttl s) ≡ live v ttl
  ttl_set s v left e window =
      rw
        (
          laws.entry-pexpire (counter_key key) ttl s (counter_key key) window,
          eq_refl (counter_key key),
          e,
        )
        refl

  -- A counter without an expiry gets one, as a counter that has just been created does.
  expiring :
      (s : State) (v : ℕ) (left : Option ℕ)
      → counter redis key s ≡ some (record { value = v; left = left })
      → 0 < ttl
      → let s' =
          (with_expiry redis
            (counter_key key)
            ttl
            (pttl_of (some (record { value = v; left = left })))
            s).1 in
        (t : ℕ) × (counter redis key s' ≡ live v t) × (0 < t)
  expiring s v none e window = (ttl, ttl_set s v none e window, window)
  expiring s v (some zero) e window = (ttl, ttl_set s v (some zero) e window, window)
  expiring s v (some (suc t)) e window = rw (lt→ltb 0 (suc t) (omega arith)) (suc t, e, omega arith)

  -- Whatever the counter was before, also one left without an expiry, a counted request leaves it
  -- one higher and with an expiry.
  pub counter_expires :
      (s : State) (old : Option (Entry ℕ))
      → counter redis key s ≡ old
      → block redis key s ≡ none
      → 0 < ttl
      → 0 < block_duration
      → (t : ℕ) × (counter redis key (run redis laws key ttl limit block_duration s).1
          ≡ live (incremented old).value t)
        × (0 < t)
  unfolding increment_script
  counter_expires s old e free window positive =
      let s1 : State = (redis.incr (counter_key key) s).1 in
      let bumped : counter redis key s1 ≡ some (incremented old) =
        laws.entry-incr (counter_key key) s (counter_key key)
        ∙ rw (eq_refl (counter_key key), e) refl in
      let left : redis.pttl (counter_key key) s1 ≡ pttl_of (some (incremented old)) =
        laws.pttl_lem (counter_key key) s1 ∙ ap pttl_of bumped in
      let (t, timed, alive) =
        expiring s1 (incremented old).value (incremented old).left bumped window in
      (
        t,
        rw (laws.pttl_lem (block_key key) s, free) (counter-limited _ _ _ positive ∙ rw left timed),
        alive,
      )
