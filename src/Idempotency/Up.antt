-- ===== src/Idempotency/Up.antt =====
-- Redis answers every command: the service's methods then run to their end, and a stored record is
-- found until its TTL has passed.
use personal_blog_service.Common.{
  ℕ, ◌*◌, ◌<◌, String, eq_refl, ◌≡◌, refl, ◌∙◌, ap, Bool, Option, some, arith,
}
use personal_blog_service.Failure.Codes.{ErrorCode}
use personal_blog_service.Exec.{ok}
use personal_blog_service.Redis.{answer, is_absent}
use personal_blog_service.Idempotency.{
  Backend, BackendLaws, State, IdempotencyRecord, ttl_seconds, settled, build_key, completed_record,
  failed_record, set_pending, set_completed, set_completed_failure,
}
use personal_blog_service.Idempotency.Laws.{
  held, Holds, Reads, stored, held-stored, set_pending_of_answer,
}

pub record IsUp (b : Backend) : Type 0 where
  pub gets :
      (k : String) (s : b.redis.State) → (v : Option b.Text) × ((b.redis.get k s).0 ≡ answer v)
  pub sets :
      (k : String) (v : b.Text) (seconds : ℕ) (s : b.redis.State)
      → (b.redis.set_ex k v seconds s).0 ≡ answer tt
  pub sets_new :
      (k : String) (v : b.Text) (seconds : ℕ) (s : b.redis.State)
      → (set : Bool) × ((b.redis.set_nx_ex k v seconds s).0 ≡ answer set)

module _ (b : Backend) where
  open b use {Body, codec, redis}

  -- The same world `ms` milliseconds later.
  abbrev pub later : ℕ → State b → State b
  later ms w = record w { redis = redis.wait ms w.redis }

  -- The record was stored at this instant.
  abbrev pub IsStored : String → String → IdempotencyRecord Body → State b → Type 0
  IsStored uid key r w =
      held b uid key w
      ≡ some (record { value = codec.stringify r; left = some (ttl_seconds * 1000) })

  module _ (laws : BackendLaws b) (up : IsUp b) (uid key : String) where
    pub Holds-of_IsStored :
        (r : IdempotencyRecord Body) (w : State b) (ms : ℕ)
        → ms < ttl_seconds * 1000
        → IsStored uid key r w
        → Holds b uid key r (later ms w)
    Holds-of_IsStored r w ms h e =
        rw (laws.redis.entry-wait ms w.redis (build_key uid key), e) (ground arith)

    pub Reads-of_IsUp : (w : State b) → Reads b uid key w
    Reads-of_IsUp w = up.gets (build_key uid key) w.redis

    -- SET key value EX ttl of a record is answered, and stores it.
    stored_of_IsUp :
        (r : IdempotencyRecord Body) (w : State b)
        → (settled (stored b laws uid key r w).0 ≡ ok tt)
          × (redis.entry (stored b laws uid key r w).1 (build_key uid key)
              ≡ some (record { value = codec.stringify r; left = some (ttl_seconds * 1000) }))
    stored_of_IsUp r w =
        let e = up.sets (build_key uid key) (codec.stringify r) ttl_seconds w.redis in
        (
          rw e refl,
          rw (held-stored b laws uid key r w e (build_key uid key), eq_refl (build_key uid key))
              refl,
        )

    module _ (method path : String) (w : State b) where
      -- The lock is there for the taking exactly when the key is absent.
      pub set_pending_of_IsUp :
          (set_pending b uid key method path w).0 ≡ ok (is_absent (held b uid key w))
      set_pending_of_IsUp =
          let (set, e) = up.sets_new (build_key uid key) _ _ w.redis in
          let (done, same) = set_pending_of_answer b laws uid key method path w set e in
          done ∙ ap ok same

      pub set_completed_of_IsUp :
          (status : ℕ) (body : Option Body)
          → ((set_completed b uid key method path status body w).0 ≡ ok tt)
            × IsStored uid key
                (completed_record method path w.date status body)
                (set_completed b uid key method path status body w).1
      unfolding set_completed
      set_completed_of_IsUp status body = stored_of_IsUp _ w

      pub set_completed_failure_of_IsUp :
          (code : Option ErrorCode) (message : Option String)
          → ((set_completed_failure b uid key method path code message w).0 ≡ ok tt)
            × IsStored uid key
                (failed_record method path w.date code message)
                (set_completed_failure b uid key method path code message w).1
      unfolding set_completed_failure
      set_completed_failure_of_IsUp code message = stored_of_IsUp _ w
