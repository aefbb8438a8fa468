-- ===== src/Auth/Repository/Stale.antt =====
-- A session that is read while it is updated.
use personal_blog_service.Common.{◌≡◌, ap, ◌∙◌, sym, Option, none, some, String, ℕ}
use personal_blog_service.Exec.{Result, ok, pure, lift, continue, continue-ok, caught, ◌>>=◌}
use personal_blog_service.Orm.{through}
use personal_blog_service.Auth.Platform.{
  UserAuthEntity, UserSessionEntity, Platform, PlatformLaws, State,
}
use personal_blog_service.Auth.Repository.{
  or_fail, session_of, with_session, session_not_found, get_user_session_entity_by_uid,
  update_user_auth_by_user_session_entity,
}
use personal_blog_service.Auth.Repository.Coherence.{
  row_of, read, get_session_through, drop, write, dropped, written,
}
use personal_blog_service.Utils.CacheIds.{get_user_session_entity_cache_id}
use personal_blog_service.Utils.Time.{get_tic_time_hms}

hit :
    (held : Option (Option UserAuthEntity)) (row : Option UserAuthEntity) (e old : UserAuthEntity)
    → through held row ≡ some e
    → held ≡ some (some old)
    → e ≡ old
hit none row e old h a = cc
hit (some _) row e old h a = cc

-- The platform whose table another request comes to just before an UPDATE does.
abbrev pub interleaved : (p : Platform) → (p.users.State → p.users.State) → Platform
interleaved p other = record p {
  users = record p.users { update = λ k f u. p.users.update k f (other u) };
}

-- The other request reads a session, at the time of the state `s`.
abbrev pub reader : (p : Platform) → String → State p → p.users.State → p.users.State
reader p uid s u = (get_user_session_entity_by_uid p uid (record s { users = u })).1.users

-- A query that finds nothing in the cache is answered from the table and stores what it found.
abbrev pub StoresReads : Platform → Type 0
StoresReads p =
    (id : String) (ms : ℕ) (k : String) (u : p.users.State)
    → p.users.cached u id ≡ none
    → ((p.users.find_one_cached id ms k u).0 ≡ ok (p.users.row u k))
      × (p.users.cached (p.users.find_one_cached id ms k u).1 id ≡ some (p.users.row u k))

module _ (p : Platform) (laws : PlatformLaws p) (session : UserSessionEntity) where
  open p use {users}

  -- A session that is read from the table is cached from then on.
  reader_stores :
      (stores : StoresReads p) (s : State p) (u : users.State) (e : UserAuthEntity)
      → users.cached u (get_user_session_entity_cache_id session.uid) ≡ none
      → users.row u session.uid ≡ some e
      → (users.cached (reader p session.uid s u) (get_user_session_entity_cache_id session.uid)
          ≡ some (some e))
        × (users.row (reader p session.uid s u) session.uid ≡ some e)
  unfolding get_user_session_entity_by_uid
  reader_stores stores s u e empty row =
      let id = get_user_session_entity_cache_id session.uid in
      let (found, held) = stores id (get_tic_time_hms 6 0 0) session.uid u empty in
      let t : State p = record s {
        users = (read p session.uid (record s { users = u })).1.users;
      } in
      let returned = λ (q : Result (Option UserAuthEntity)).
        (let (r, t') = continue (λ o. lift (or_fail o) >>= λ x. pure (session_of x)) q t in
          caught (session_not_found p session.uid) r t').1.users in
      let same : reader p session.uid s u ≡ t.users = ap returned (found ∙ ap ok row) in
      (
        ap (λ x. users.cached x id) same ∙ held ∙ ap some row,
        ap (λ x. users.row x session.uid) same
            ∙ laws.users.row-find_one_cached id (get_tic_time_hms 6 0 0) session.uid u session.uid
            ∙ row,
      )

  -- When another request reads the session while an update waits for its UPDATE, and the query of that
  -- request stores what it finds, then the update, once it has succeeded, leaves the old session
  -- cached: what is read next is the old session, although the row is new.
  pub stale_session :
      (stores : StoresReads p) (s : State p) (e : UserAuthEntity) (next : UserSessionEntity)
      → row_of p session.uid s ≡ some e
      → let p' = interleaved p (reader p session.uid s) in
        let t = (update_user_auth_by_user_session_entity p' session s).1 in
        (update_user_auth_by_user_session_entity p' session s).0 ≡ ok tt
        → (get_user_session_entity_by_uid p session.uid t).0 ≡ ok next
        → (next ≡ session_of e) × (row_of p session.uid t ≡ some (with_session session e))
  unfolding update_user_auth_by_user_session_entity
  stale_session stores s e next row done h =
      let p' = interleaved p (reader p session.uid s) in
      let id = get_user_session_entity_cache_id session.uid in
      let (r, t) = drop p session s in
      let (_, gone, new, same) = continue-ok (λ _. write p' session) r t tt done in
      let kept_row = laws.users.row-remove_cached id s.users session.uid ∙ row in
      let (held, old) = reader_stores stores s t.users e (dropped p laws session s gone) kept_row in
      let u : State p = record t { users = reader p session.uid s t.users } in
      let (e', from, is, _) =
        get_session_through p laws session.uid (write p session u).1 next
          (ap (λ x. (get_user_session_entity_by_uid p session.uid x).0) (sym same) ∙ h) in
      let kept = laws.users.cached-update session.uid (with_session session) u.users id in
      (
        is ∙ ap session_of (hit _ _ e' e from (kept ∙ held)),
        ap (row_of p session.uid) same ∙ written p laws session u e old new,
      )
