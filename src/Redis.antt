-- ===== src/Redis.antt =====
-- The Redis server as the code relies on it: ioredis and the server are no part of the
-- repository, so the client is a record of commands and the documented behaviour of each command
-- is a law over `entry`, what a key holds at this instant.
pub mod Memory
use personal_blog_service.Common.{
  ℕ, ◌+◌, ◌-◌, ◌*◌, ◌<◌, leb, String, str_eq, ◌≡◌, Bool, true, false, ◌&&◌, Option, none, some,
  if◌then◌else◌,
}

-- The value of a live key and the milliseconds that are left to it; `none` is no expiry.
pub record Entry (V : Type 0) : Type 0 where
  pub value : V
  pub left : Option ℕ

-- A command that the client awaits is answered, or its promise is rejected with an Error of some
-- class and message.
pub data Answer (A : Type 0) : Type 0 where
  answer : A → Answer A
  reject : String → String → Answer A

abbrev pub value_of : {V : Type 0} → Option (Entry V) → Option V
value_of none = none
value_of (some e) = some e.value

abbrev pub is_absent : {A : Type 0} → Option A → Bool
is_absent none = true
is_absent (some _) = false

-- What `ms` milliseconds do to a key.
abbrev pub age : {V : Type 0} → ℕ → Option (Entry V) → Option (Entry V)
age ms none = none
age ms (some e) = elim e.left [
  | none ↦ some e
  | some t ↦ if leb t ms then none else some (record e { left = some (t - ms) })
]

pub record RedisClient (V : Type 0) : Type 1 where
  pub State : Type 0
  pub entry : State → String → Option (Entry V)
  -- Time passes.
  pub wait : ℕ → State → State
  -- GET key
  pub get : String → State → Answer (Option V) × State
  -- SET key value EX seconds
  pub set_ex : String → V → ℕ → State → Answer (Unit {0}) × State
  -- SET key value NX EX seconds; the flag says whether the key was set
  pub set_nx_ex : String → V → ℕ → State → Answer Bool × State

pub record RedisClientLaws {V : Type 0} (c : RedisClient V) : Type 0 where
  pub entry-wait :
      (ms : ℕ) (s : c.State) (j : String) → c.entry (c.wait ms s) j ≡ age ms (c.entry s j)
  pub entry-get : (k : String) (s : c.State) (j : String) → c.entry (c.get k s).1 j ≡ c.entry s j
  pub get_answer :
      (k : String) (s : c.State) (found : Option V)
      → (c.get k s).0 ≡ answer found
      → found ≡ value_of (c.entry s k)
  pub entry-set_ex :
      (k : String) (v : V) (seconds : ℕ) (s : c.State) (j : String)
      → (c.set_ex k v seconds s).0 ≡ answer tt
      → c.entry (c.set_ex k v seconds s).1 j ≡ (
          if str_eq k j
          then some (record { value = v; left = some (seconds * 1000) })
          else c.entry s j)
  pub set_nx_ex_answer :
      (k : String) (v : V) (seconds : ℕ) (s : c.State) (set : Bool)
      → (c.set_nx_ex k v seconds s).0 ≡ answer set
      → set ≡ is_absent (c.entry s k)
  pub entry-set_nx_ex :
      (k : String) (v : V) (seconds : ℕ) (s : c.State) (set : Bool) (j : String)
      → (c.set_nx_ex k v seconds s).0 ≡ answer set
      → c.entry (c.set_nx_ex k v seconds s).1 j ≡ (
          if set && str_eq k j
          then some (record { value = v; left = some (seconds * 1000) })
          else c.entry s j)
  -- A SET never removes a live key, also where its reply is lost.
  pub set_ex_keeps :
      (k : String) (v : V) (seconds : ℕ) (s : c.State) (j : String)
      → is_absent (c.entry s j) ≡ false
      → is_absent (c.entry (c.set_ex k v seconds s).1 j) ≡ false
  pub set_nx_ex_keeps :
      (k : String) (v : V) (seconds : ℕ) (s : c.State) (j : String)
      → is_absent (c.entry s j) ≡ false
      → is_absent (c.entry (c.set_nx_ex k v seconds s).1 j) ≡ false

-- What PTTL returns: -2 for an absent key, -1 for one without expiry, else the milliseconds left.
pub data ℤ : Type 0 where
  pos : ℕ → ℤ
  negsuc : ℕ → ℤ

abbrev pub pttl_of : Option (Entry ℕ) → ℤ
pttl_of none = negsuc 1
pttl_of (some e) = elim e.left [ none ↦ negsuc 0 | some t ↦ pos t ]

-- INCR counts from 0 where the key is absent, and leaves an expiry as it is.
abbrev pub incremented : Option (Entry ℕ) → Entry ℕ
incremented none = record { value = 1; left = none }
incremented (some e) = record e { value = e.value + 1 }

abbrev pub with_left : ℕ → Option (Entry ℕ) → Option (Entry ℕ)
with_left ms none = none
with_left ms (some e) = some (record e { left = some ms })

-- The commands of a Lua script, which the server runs as one atomic step. What the keys hold is a
-- number here, as tonumber reads it.
pub record RedisScript : Type 1 where
  pub State : Type 0
  pub entry : State → String → Option (Entry ℕ)
  -- Time passes.
  pub wait : ℕ → State → State
  -- tonumber(redis.call('GET', key)); `none` is nil
  pub get : String → State → Option ℕ
  pub pttl : String → State → ℤ
  pub incr : String → State → ℕ × State
  pub pexpire : String → ℕ → State → State
  -- SET key value PX milliseconds
  pub set_px : String → ℕ → ℕ → State → State

pub record RedisScriptLaws (c : RedisScript) : Type 0 where
  pub entry-wait :
      (ms : ℕ) (s : c.State) (j : String) → c.entry (c.wait ms s) j ≡ age ms (c.entry s j)
  pub get_lem : (k : String) (s : c.State) → c.get k s ≡ value_of (c.entry s k)
  pub pttl_lem : (k : String) (s : c.State) → c.pttl k s ≡ pttl_of (c.entry s k)
  pub incr_lem : (k : String) (s : c.State) → (c.incr k s).0 ≡ (incremented (c.entry s k)).value
  pub entry-incr :
      (k : String) (s : c.State) (j : String)
      → c.entry (c.incr k s).1 j
        ≡ (if str_eq k j then some (incremented (c.entry s k)) else c.entry s j)
  pub entry-pexpire :
      (k : String) (ms : ℕ) (s : c.State) (j : String)
      → 0 < ms
      → c.entry (c.pexpire k ms s) j
        ≡ (if str_eq k j then with_left ms (c.entry s k) else c.entry s j)
  pub entry-set_px :
      (k : String) (v ms : ℕ) (s : c.State) (j : String)
      → 0 < ms
      → c.entry (c.set_px k v ms s) j
        ≡ (if str_eq k j then some (record { value = v; left = some ms }) else c.entry s j)
