-- ===== src/Auth/Repository/Coherence.antt =====
-- What a reader of the cached session sees after a writer: in sequence, and when a reader comes
-- between the two queries of the writer.
use personal_blog_service.Common.{
  ℕ, String, eq_refl, ◌≡◌, refl, ◌∙◌, sym, ap, Option, none, some, arith,
}
use personal_blog_service.Failure.Exceptions.{Thrown, error}
use personal_blog_service.Exec.{
  Result, ok, throw, pure, swallow, lift, continue, continue-ok, caught, ◌>>=◌,
}
use personal_blog_service.Orm.{through}
use personal_blog_service.Auth.Platform.{
  UserAuthEntity, UserSessionEntity, Platform, PlatformLaws, State, query,
}
use personal_blog_service.Auth.Repository.{
  or_fail, session_of, with_session, session_not_found, rethrown, get_user_session_entity_by_uid,
  update_user_auth_by_user_session_entity,
}
use personal_blog_service.Utils.CacheIds.{get_user_session_entity_cache_id}
use personal_blog_service.Utils.Time.{get_tic_time_hms}

module _ (p : Platform) (uid : String) where
  open p use {users}

  -- The row, and the live cached session, of the user.
  abbrev pub row_of : State p → Option UserAuthEntity
  row_of s = users.row s.users uid

  abbrev pub cached_of : State p → Option (Option UserAuthEntity)
  cached_of s = users.cached s.users (get_user_session_entity_cache_id uid)

  abbrev pub read : State p → Result (Option UserAuthEntity) × State p
  read =
      query p
        (users.find_one_cached (get_user_session_entity_cache_id uid) (get_tic_time_hms 6 0 0) uid)

module _ (p : Platform) (laws : PlatformLaws p) (uid : String) where
  open p use {users}

  -- The catch only throws.
  unfound :
      (err : Thrown) (s : State p) (session : UserSessionEntity)
      → (session_not_found p uid err s).0 ≡ ok session
      → ⊥
  unfound err s session h =
      let e =
        swallow (rethrown p {A = UserSessionEntity} uid err)
          (query p (users.remove_cached (get_user_session_entity_cache_id uid))) s in
      ground arith

  found :
      (r : Option UserAuthEntity) (s : State p) (session : UserSessionEntity)
      → (let (q, t) = continue (λ e. pure (session_of e)) (or_fail r) s in
          caught (session_not_found p uid) q t).0
        ≡ ok session
      → (e : UserAuthEntity) × (r ≡ some e)
        × (session ≡ session_of e)
        × ((let (q, t) = continue (λ e. pure (session_of e)) (or_fail r) s in
              caught (session_not_found p uid) q t).1
            ≡ s)
  found (some e) s session h = (e, refl, ground arith, refl)
  found none s session h = absurd (
      unfound (error "EntityNotFoundError" "Could not find any entity of type UserAuthEntity") s
        session h)

  answered :
      (q : Result (Option UserAuthEntity)) (s : State p) (session : UserSessionEntity)
      → (let (r, t) = continue (λ o. lift (or_fail o) >>= λ e. pure (session_of e)) q s in
          caught (session_not_found p uid) r t).0
        ≡ ok session
      → (e : UserAuthEntity) × (q ≡ ok (some e))
        × (session ≡ session_of e)
        × ((let (r, t) = continue (λ o. lift (or_fail o) >>= λ e. pure (session_of e)) q s in
              caught (session_not_found p uid) r t).1
            ≡ s)
  answered (ok r) s session h =
      let (e, same, is, kept) = found r s session h in (e, ap ok same, is, kept)
  answered (throw err) s session h = absurd (unfound err s session h)

  -- A session that is returned is the cached one if there is one, otherwise that of the row.
  pub get_session_through :
      (s : State p) (session : UserSessionEntity)
      → (get_user_session_entity_by_uid p uid s).0 ≡ ok session
      → (e : UserAuthEntity) × (through (cached_of p uid s) (row_of p uid s) ≡ some e)
        × (session ≡ session_of e)
        × (row_of p uid (get_user_session_entity_by_uid p uid s).1 ≡ row_of p uid s)
  unfolding get_user_session_entity_by_uid
  get_session_through s session h =
      let (q, t) = read p uid s in
      let (e, same, is, kept) = answered q t session h in
      (
        e,
        sym (laws.users.find_one_cached_ok _ _ uid s.users (some e) same),
        is,
        rw kept (
            laws.users.row-find_one_cached (get_user_session_entity_cache_id uid)
              (get_tic_time_hms 6 0 0) uid s.users uid),
      )

missed :
    (held : Option (Option UserAuthEntity)) (row : Option UserAuthEntity)
    (e wanted : UserAuthEntity)
    → through held row ≡ some e
    → held ≡ none
    → row ≡ some wanted
    → e ≡ wanted
missed none row e wanted h a b = cc
missed (some _) row e wanted h a b = cc

module _ (p : Platform) (session : UserSessionEntity) where
  open p use {users}

  -- The two queries of the update.
  abbrev pub drop : State p → Result (Unit {0}) × State p
  drop = query p (users.remove_cached (get_user_session_entity_cache_id session.uid))

  abbrev pub write : State p → Result (Unit {0}) × State p
  write = query p (users.update session.uid (with_session session))

module _ (p : Platform) (laws : PlatformLaws p) (session : UserSessionEntity) where
  open p use {users}

  pub dropped :
      (s : State p)
      → (drop p session s).0 ≡ ok tt
      → cached_of p session.uid (drop p session s).1 ≡ none
  dropped s h =
      let id = get_user_session_entity_cache_id session.uid in
      laws.users.cached-remove_cached id s.users id h ∙ rw (eq_refl id) refl

  pub written :
      (s : State p) (e : UserAuthEntity)
      → row_of p session.uid s ≡ some e
      → (write p session s).0 ≡ ok tt
      → row_of p session.uid (write p session s).1 ≡ some (with_session session e)
  written s e row h =
      laws.users.row-update session.uid (with_session session) s.users session.uid h
      ∙ rw (eq_refl session.uid, row) refl

  pub updated :
      (s : State p) (e : UserAuthEntity)
      → row_of p session.uid s ≡ some e
      → (update_user_auth_by_user_session_entity p session s).0 ≡ ok tt
      → let t = (update_user_auth_by_user_session_entity p session s).1 in
        (cached_of p session.uid t ≡ none)
        × (row_of p session.uid t ≡ some (with_session session e))
  unfolding update_user_auth_by_user_session_entity
  updated s e row h =
      let (r, t) = drop p session s in
      let (_, gone, done, same) = continue-ok (λ _. write p session) r t tt h in
      let kept =
        laws.users.row-remove_cached (get_user_session_entity_cache_id session.uid) s.users
          session.uid in
      rw same (
        laws.users.cached-update session.uid (with_session session) t.users
              (get_user_session_entity_cache_id session.uid)
            ∙ dropped s gone,
        written t e (kept ∙ row) done,
      )

  -- Once both queries of an update are answered, a session that is read next is the one written,
  -- whatever the clock says by then.
  pub get-update_session :
      (s : State p) (e : UserAuthEntity) (read : UserSessionEntity) (now : ℕ)
      → row_of p session.uid s ≡ some e
      → (update_user_auth_by_user_session_entity p session s).0 ≡ ok tt
      → (get_user_session_entity_by_uid p session.uid
          (record (update_user_auth_by_user_session_entity p session s).1 { now = now })).0
        ≡ ok read
      → read ≡ session
  get-update_session s e read now row done h =
      let t = (update_user_auth_by_user_session_entity p session s).1 in
      let (empty, new) = updated s e row done in
      let (e', same, is, _) =
        get_session_through p laws session.uid (record t { now = now }) read h in
      is ∙ ap session_of (missed _ _ e' (with_session session e) same empty new)
