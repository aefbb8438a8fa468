-- ===== src/Interceptor/Exclusion.antt =====
-- No two concurrent requests under one key of one user are in their handlers at once.
use personal_blog_service.Common.{ℕ, ◌≡◌, ◌≢◌, ◌⊎◌}
use personal_blog_service.Interceptor.Race.{Phase, running}

-- Nobody is in a handler.
abbrev pub IsIdle : (ℕ → Phase) → Type 0
IsIdle phase = (i : ℕ) → phase i ≢ running

-- Of any two requests, one is not in its handler, or the two are one.
abbrev pub AreApart : (ℕ → Phase) → Type 0
AreApart phase = (i j : ℕ) → (i ≡ j) ⊎ (phase i ≢ running) ⊎ (phase j ≢ running)

-- Nobody is in a handler before one was started, and no two ever are.
abbrev IsExclusive : ℕ → (ℕ → Phase) → Type 0
IsExclusive entries phase = (entries ≡ 0 → IsIdle phase) × AreApart phase
