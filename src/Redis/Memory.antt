-- ===== src/Redis/Memory.antt =====
-- A Redis server as a function from keys to entries: it shows that the laws can hold, and the
-- tests run on it.
use personal_blog_service.Common.{
  ℕ, ◌*◌, String, str_eq, eq_iff, ◌≡◌, refl, Bool, true, false, ◌&&◌, Option, none, some, arith,
  if◌then◌else◌,
}
use personal_blog_service.Redis.{
  Entry, Answer, answer, value_of, is_absent, age, RedisClient, RedisClientLaws, pttl_of,
  incremented, with_left, RedisScript, RedisScriptLaws,
}

abbrev pub Keys : Type 0 → Type 0
Keys V = String → Option (Entry V)

abbrev pub empty : {V : Type 0} → Keys V
empty j = none

abbrev pub write : {V : Type 0} → String → Option (Entry V) → Keys V → Keys V
write k e s j = if str_eq k j then e else s j

module _ (V : Type 0) where
  abbrev for_seconds : V → ℕ → Option (Entry V)
  for_seconds v seconds = some (record { value = v; left = some (seconds * 1000) })

  abbrev set_new : String → V → ℕ → Keys V → Option (Entry V) → Answer Bool × Keys V
  set_new k v seconds s none = (answer true, write k (for_seconds v seconds) s)
  set_new k v seconds s (some _) = (answer false, s)

  abbrev pub client : RedisClient V
  client = record {
    State = Keys V;
    entry = λ s j. s j;
    wait = λ ms s j. age ms (s j);
    get = λ k s. (answer (value_of (s k)), s);
    set_ex = λ k v seconds s. (answer tt, write k (for_seconds v seconds) s);
    set_nx_ex = λ k v seconds s. set_new k v seconds s (s k);
  }

  nx_answer :
      (k : String) (v : V) (seconds : ℕ) (s : Keys V) (set : Bool)
      → (client.set_nx_ex k v seconds s).0 ≡ answer set
      → set ≡ is_absent (s k)
  nx_answer k v seconds s set h = ground arith

  nx_entry :
      (k : String) (v : V) (seconds : ℕ) (s : Keys V) (set : Bool) (j : String)
      → (client.set_nx_ex k v seconds s).0 ≡ answer set
      → client.entry (client.set_nx_ex k v seconds s).1 j
        ≡ (if set && str_eq k j then for_seconds v seconds else s j)
  nx_entry k v seconds s set j h = ground (arith, eq_iff k j)

  get_answer :
      (k : String) (s : Keys V) (found : Option V)
      → (client.get k s).0 ≡ answer found
      → found ≡ value_of (s k)
  get_answer k s found h = cc

  ex_keeps :
      (k : String) (v : V) (seconds : ℕ) (s : Keys V) (j : String)
      → is_absent (s j) ≡ false
      → is_absent (client.entry (client.set_ex k v seconds s).1 j) ≡ false
  ex_keeps k v seconds s j h = ground arith

  nx_keeps :
      (k : String) (v : V) (seconds : ℕ) (s : Keys V) (j : String)
      → is_absent (s j) ≡ false
      → is_absent (client.entry (client.set_nx_ex k v seconds s).1 j) ≡ false
  nx_keeps k v seconds s j h = ground arith

  pub client_laws : RedisClientLaws client
  client_laws = record {
    entry-wait = λ ms s j. refl;
    entry-get = λ k s j. refl;
    get_answer = get_answer;
    entry-set_ex = λ k v seconds s j h. refl;
    set_nx_ex_answer = nx_answer;
    entry-set_nx_ex = nx_entry;
    set_ex_keeps = ex_keeps;
    set_nx_ex_keeps = nx_keeps;
  }

  pub client_sets_new :
      (k : String) (v : V) (seconds : ℕ) (s : client.State)
      → (set : Bool) × ((client.set_nx_ex k v seconds s).0 ≡ answer set)
  client_sets_new k v seconds s = go (s k) refl
    where
      go :
          (e : Option (Entry V))
          → s k ≡ e
          → (set : Bool) × ((client.set_nx_ex k v seconds s).0 ≡ answer set)
      go none e = (true, rw e refl)
      go (some _) e = (false, rw e refl)

abbrev pub script : RedisScript
script = record {
  State = Keys ℕ;
  entry = λ s j. s j;
  wait = λ ms s j. age ms (s j);
  get = λ k s. value_of (s k);
  pttl = λ k s. pttl_of (s k);
  incr = λ k s. ((incremented (s k)).value, write k (some (incremented (s k))) s);
  pexpire = λ k ms s. write k (with_left ms (s k)) s;
  set_px = λ k v ms s. write k (some (record { value = v; left = some ms })) s;
}

pub script_laws : RedisScriptLaws script
script_laws = record {
  entry-wait = λ ms s j. refl;
  get_lem = λ k s. refl;
  pttl_lem = λ k s. refl;
  incr_lem = λ k s. refl;
  entry-incr = λ k s j. refl;
  entry-pexpire = λ k ms s j h. refl;
  entry-set_px = λ k v ms s j h. refl;
}
