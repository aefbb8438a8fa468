-- ===== src/Throttler/Window.antt =====
-- The rate limit over a window: however the requests of one client are spread over it.
use personal_blog_service.Common.{
  ℕ, suc, ◌+◌, ◌-◌, ◌<◌, ◌≤◌, min, ltb, String, ◌≡◌, refl, ◌∙◌, inl, inr, Bool, List, [], ◌∷◌,
  length, none, arith, Bool-cases, ap, ltb→lt, ltb-false→le, if◌then◌else◌,
}
use personal_blog_service.Redis.{RedisScript, RedisScriptLaws, age}
use personal_blog_service.Throttler.{increment, to_record, ScriptReply}
use personal_blog_service.Throttler.Script.{
  live, run, counter, block, run_blocked, run_below, run_over, run_fresh,
}

-- Milliseconds that pass before the requests of a schedule, all told.
abbrev pub total : List ℕ → ℕ
total [] = 0
total (d ∷ ds) = d + total ds

age-live : (v t d : ℕ) → d < t → age d (live v t) ≡ live v (t - d)
age-live v t d h = ground arith

module _ (redis : RedisScript) (key : String) (ttl limit block_duration : ℕ) where
  open redis use {State, wait}

  abbrev pub tally : Bool → ℕ → ℕ
  tally blocked rest = if blocked then rest else suc rest

  -- How many requests of a schedule are let through; each waits its milliseconds and then counts.
  unfoldable pub admitted : List ℕ → State → ℕ
  admitted [] s = 0
  admitted (d ∷ ds) s =
      let (r, s') = increment redis key ttl limit block_duration (wait d s) in
      tally r.is_blocked (admitted ds s')

  module _ (laws : RedisScriptLaws redis) where
    abbrev ran : State → ScriptReply × State
    ran = run redis laws key ttl limit block_duration

    admitted_lem :
        (d : ℕ) (ds : List ℕ) (s : State)
        → admitted (d ∷ ds) s
          ≡ tally (to_record (ran (wait d s)).0).is_blocked (admitted ds (ran (wait d s)).1)
    unfolding admitted increment
    admitted_lem d ds s = refl

    counter_wait :
        (s : State) (v t d : ℕ)
        → counter redis key s ≡ live v t
        → d < t
        → counter redis key (wait d s) ≡ live v (t - d)
    counter_wait s v t d e h = laws.entry-wait _ _ _ ∙ rw e (age-live v t d h)

    block_wait :
        (s : State) (v t d : ℕ)
        → block redis key s ≡ live v t
        → d < t
        → block redis key (wait d s) ≡ live v (t - d)
    block_wait s v t d e h = laws.entry-wait _ _ _ ∙ rw e (age-live v t d h)

    -- While a key is blocked nothing is let through.
    pub admitted_blocked :
        (ds : List ℕ) (s : State) (v u : ℕ)
        → block redis key s ≡ live v u
        → total ds < u
        → admitted ds s ≡ 0
    admitted_blocked [] s v u e h = unfold admitted in refl
    admitted_blocked (d ∷ ds) s v u e h =
        let still = block_wait s v u d e (omega arith) in
        let (same, blocked, _) =
          run_blocked redis laws key ttl limit block_duration (wait d s) v (u - d) still
            (omega arith) in
        admitted_lem d ds s
        ∙ rw (blocked, same) (admitted_blocked ds (wait d s) v (u - d) still (omega arith))

    -- A counter with room lets through what is left of the limit, and no more.
    admitted_counting :
        (ds : List ℕ) (s : State) (c t : ℕ)
        → block redis key s ≡ none
        → counter redis key s ≡ live c t
        → c ≤ limit
        → total ds < t
        → total ds < block_duration
        → admitted ds s ≡ min (length ds) (limit - c)
    admitted_counting [] s c t free e room soon short = unfold admitted in omega arith
    admitted_counting (d ∷ ds) s c t free e room soon short =
        let free' : block redis key (wait d s) ≡ none = laws.entry-wait _ _ _ ∙ rw free refl in
        let e' = counter_wait s c t d e (omega arith) in
        elim (Bool-cases (ltb c limit)) [
          | inl below ↦
              let (passed, _, counter', block') =
                run_below redis laws key ttl limit block_duration (wait d s) c (t - d) free' e'
                  (omega arith) (ltb→lt c limit below) in
              admitted_lem d ds s
              ∙ rw passed (
                  ap suc (
                    admitted_counting ds (ran (wait d s)).1 (c + 1) (t - d) block' counter'
                      (ground arith) (omega arith) (omega arith))
                  ∙ ground arith)
          | inr full ↦
              let (stopped, _, _, block') =
                run_over redis laws key ttl limit block_duration (wait d s) c (t - d) free' e'
                  (omega arith) (ltb-false→le c limit full) (omega arith) in
              admitted_lem d ds s
              ∙ rw stopped (
                  admitted_blocked ds (ran (wait d s)).1 1 block_duration block' (omega arith)
                  ∙ ground arith)
        ]

    -- A client that was idle, with neither key live, gets exactly the limit through within a
    -- window of less than `ttl` milliseconds after its first request, however its requests are
    -- spread over it, if a block lasts as long as a window.
    pub admitted-eq-min :
        (d : ℕ) (ds : List ℕ) (s : State)
        → block redis key s ≡ none
        → counter redis key s ≡ none
        → 0 < limit
        → ttl ≤ block_duration
        → total ds < ttl
        → admitted (d ∷ ds) s ≡ min (length (d ∷ ds)) limit
    admitted-eq-min d ds s free idle room long soon =
        let free' : block redis key (wait d s) ≡ none = laws.entry-wait _ _ _ ∙ rw free refl in
        let idle' : counter redis key (wait d s) ≡ none = laws.entry-wait _ _ _ ∙ rw idle refl in
        let (passed, _, counter', block') =
          run_fresh redis laws key ttl limit block_duration (wait d s) free' idle' (omega arith)
            room in
        admitted_lem d ds s
        ∙ rw passed (
            ap suc (
              admitted_counting ds (ran (wait d s)).1 1 ttl block' counter' room soon (omega arith))
            ∙ omega arith)
