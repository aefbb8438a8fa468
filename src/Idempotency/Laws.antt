-- ===== src/Idempotency/Laws.antt =====
-- What each method of the service does to the key of a user, where Redis answers.
use personal_blog_service.Common.{if◌then◌else◌}
use personal_blog_service.Common.{String, str_eq, ◌≡◌, refl, ◌∙◌, ap, Bool, Option, none, some, ◌*◌}
use personal_blog_service.Exec.{ok}
use personal_blog_service.Redis.{Entry, Answer, answer, value_of, is_absent}
use personal_blog_service.Idempotency.{
  Backend, BackendLaws, State, IdempotencyRecord, ttl_seconds, build_key, pending_record, get,
  set_pending,
}

module _ (b : Backend) where
  open b use {Body, codec, redis}

  -- What Redis holds under the key of the user.
  abbrev pub held : String → String → State b → Option (Entry b.Text)
  held uid key w = redis.entry w.redis (build_key uid key)

  -- The key is live and holds the record.
  abbrev pub Holds : String → String → IdempotencyRecord Body → State b → Type 0
  Holds uid key r w = value_of (held uid key w) ≡ some (codec.stringify r)

  -- The state after the GET of the key.
  abbrev pub after_get : String → String → State b → State b
  after_get uid key w = record w { redis = (redis.get (build_key uid key) w.redis).1 }

  -- GET is answered.
  abbrev pub Reads : String → String → State b → Type 0
  Reads uid key w =
      (found : Option b.Text) × ((redis.get (build_key uid key) w.redis).0 ≡ answer found)

  module _ (laws : BackendLaws b) where
    pub get_of_Holds :
        (uid key : String) (r : IdempotencyRecord Body) (w : State b)
        → Holds uid key r w
        → Reads uid key w
        → get b uid key w ≡ (ok (some r), after_get uid key w)
    unfolding get
    get_of_Holds uid key r w h (found, e) =
        let same : found ≡ some (codec.stringify r) = laws.redis.get_answer _ _ _ e ∙ h in
        rw (e, same, laws.codec.parse-stringify r) refl

    pub get_of_absent :
        (uid key : String) (w : State b)
        → held uid key w ≡ none
        → Reads uid key w
        → get b uid key w ≡ (ok none, after_get uid key w)
    unfolding get
    get_of_absent uid key w h (found, e) =
        let same : found ≡ none = laws.redis.get_answer _ _ _ e ∙ ap value_of h in rw (e, same) refl

    pub held-after_get :
        (uid key : String) (w : State b) (u k : String)
        → held u k (after_get uid key w) ≡ held u k w
    held-after_get uid key w u k = laws.redis.entry-get _ _ _

    -- A stored record is live, for the whole TTL, and no other key changes.
    module _ (uid key : String) (r : IdempotencyRecord Body) (w : State b) where
      -- SET key value EX ttl, as the two methods that complete a record call it.
      abbrev pub stored : Answer (Unit {0}) × redis.State
      stored = redis.set_ex (build_key uid key) (codec.stringify r) ttl_seconds w.redis

      pub held-stored :
          stored.0 ≡ answer tt
          → (j : String)
          → redis.entry stored.1 j ≡ (
              if str_eq (build_key uid key) j
              then some (record { value = codec.stringify r; left = some (ttl_seconds * 1000) })
              else redis.entry w.redis j)
      held-stored e j = laws.redis.entry-set_ex _ _ _ _ _ e

    module _ (uid key method path : String) (w : State b) where
      -- SET NX is answered, and says whether the key was absent.
      pub set_pending_of_answer :
          (set : Bool)
          → (redis.set_nx_ex
              (build_key uid key)
              (codec.stringify (pending_record method path w.date))
              ttl_seconds
              w.redis).0
            ≡ answer set
          → ((set_pending b uid key method path w).0 ≡ ok set) × (set ≡ is_absent (held uid key w))
      unfolding set_pending
      set_pending_of_answer set e = (rw e refl, laws.redis.set_nx_ex_answer _ _ _ _ _ e)
