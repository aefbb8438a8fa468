-- ===== src/Auth/Google.antt =====
-- For whom a Google login makes tokens.
use personal_blog_service.Common.{
  String, eq_iff, eq_refl, ◌≡◌, refl, sym, ap, ◌∙◌, ◌⊎◌, inl, inr, Bool, true, false, Option, none,
  some, arith, if◌then◌else◌,
}
use mathlib.Core.Path.{subst}
use personal_blog_service.Failure.Exceptions.{Thrown, error, auth_invalid_oauth_token}
use personal_blog_service.Exec.{
  Result, ok, throw, pure, raise, lift, continue, continue-ok, bind-ok, ok-injective, caught, ◌>>=◌,
  ◌>>◌,
}
use personal_blog_service.Auth.Platform.{
  JwtDto, UserAuthEntity, Platform, PlatformLaws, State, Action,
}
use personal_blog_service.Auth.Repository.{
  auth_not_found, rethrown, or_fail, save_user_auth_entity, is_exist, get_user_auth_entity,
}
use personal_blog_service.Auth.Repository.Coherence.{row_of}
use personal_blog_service.Utils.CacheIds.{get_user_auth_entity_cache_id}
use personal_blog_service.Auth.Jwt.{create}
use personal_blog_service.Auth.Service.{
  new_user, decode_credential_token, email_of, google_oauth_login,
}

only : (a b : UserAuthEntity) → ◌≡◌ {A = Option UserAuthEntity} (some a) (some b) → a ≡ b
only a b h = cc

module _ (p : Platform) (laws : PlatformLaws p) where
  open p use {crypto}

  verified :
      (err : Thrown) (r : Result (Option String)) (s : State p) (payload : Option String)
      → (caught (λ _. raise err) r s).0 ≡ ok payload
      → (r ≡ ok payload) × ((caught (λ _. raise err) r s).1 ≡ s)
  verified err (ok _) s payload h = (h, refl)
  verified err (throw _) s payload h = absurd (ground arith)

  email_named :
      (payload : Option String) (uid : String) → email_of p payload ≡ ok uid → payload ≡ some uid
  email_named none uid h = absurd (ground arith)
  email_named (some email) uid h = ground (arith, eq_iff email "")

  module _ (uid : String) where
    never :
        (err : Thrown) (r : Result (Unit {0})) (s : State p) (e : UserAuthEntity)
        → (continue (λ _. rethrown p uid err) r s).0 ≡ ok e
        → ⊥
    never err (ok _) s e h = ground arith
    never err (throw _) s e h = ground arith

    -- The catch only throws.
    lost :
        (err : Thrown) (s : State p) (e : UserAuthEntity)
        → (auth_not_found p uid err s).0 ≡ ok e
        → ⊥
    lost err s e h =
        let (r, users) = p.users.remove_cached (get_user_auth_entity_cache_id uid) s.users in
        never err r (record s { users = users }) e h

    found :
        (q : Result (Option UserAuthEntity)) (s : State p) (e : UserAuthEntity)
        → (let (r, t) = continue (λ o. lift (or_fail o)) q s in caught (auth_not_found p uid) r t).0
          ≡ ok e
        → (q ≡ ok (some e))
          × ((let (r, t) = continue (λ o. lift (or_fail o)) q s in
                caught (auth_not_found p uid) r t).1
              ≡ s)
    found (ok (some a)) s e h = (ap (λ x. ok (some x)) (ok-injective h), refl)
    found (ok none) s e h = absurd (
        lost (error "EntityNotFoundError" "Could not find any entity of type UserAuthEntity") s e h)
    found (throw err) s e h = absurd (lost err s e h)

    -- An account that is returned is the row, and reading it changes no row.
    got :
        (s : State p) (e : UserAuthEntity)
        → (get_user_auth_entity p uid s).0 ≡ ok e
        → (row_of p uid s ≡ some e) × (row_of p uid (get_user_auth_entity p uid s).1 ≡ some e)
    unfolding get_user_auth_entity
    got s e h =
        let (r, users) = p.users.find_one uid s.users in
        let (answered, same) = found r (record s { users = users }) e h in
        let row = sym (laws.users.find_one_ok uid s.users (some e) answered) in
        (row, ap (row_of p uid) same ∙ laws.users.row-find_one uid s.users uid ∙ row)

    -- The account of a login: the one that was there, or a new one.
    abbrev IsAccount : Option UserAuthEntity → UserAuthEntity → Type 0
    IsAccount before e = (before ≡ some e) ⊎ (before ≡ none) × (e ≡ new_user p uid "-" "-" "Y")

    abbrev ensured : Bool → Action p (Unit {0})
    ensured exists =
        if exists then pure tt else save_user_auth_entity p (new_user p uid "-" "-" "Y")

    account :
        (exists : Bool) (s : State p) (e : UserAuthEntity)
        → (ensured exists s).0 ≡ ok tt
        → row_of p uid (ensured exists s).1 ≡ some e
        → IsAccount (row_of p uid s) e
    unfolding save_user_auth_entity
    account true s e h row = inl row
    account false s e h row =
        let new = new_user p uid "-" "-" "Y" in
        let fresh = laws.users.insert_ok new s.users h in
        let inserted = laws.users.row-insert new s.users uid h ∙ rw (eq_refl uid) refl in
        inr (fresh, only e new (sym row ∙ inserted))

  module _ (token : String) (dto : JwtDto) where
    -- The account, the state that the tokens are made in, and the state that is left.
    abbrev pub MadeFor : State p → State p → String → UserAuthEntity → State p → Type 0
    MadeFor s s' uid e w =
        (crypto.verify_google s.now token ≡ ok (some uid))
        × IsAccount uid (row_of p uid s) e
        × (row_of p uid w ≡ some e)
        × ((create p e.uid e.user_role w).0 ≡ ok dto)
        × (s' ≡ (create p e.uid e.user_role w).1)

    -- The rest of the login when the email is known.
    abbrev entered : String → Action p JwtDto
    entered uid = do
      exists ← is_exist p uid
      ensured uid exists
      e ← get_user_auth_entity p uid
      create p e.uid e.user_role

    entered-account :
        (uid : String) (s : State p)
        → (entered uid s).0 ≡ ok dto
        → (e : UserAuthEntity) × (w : State p) × IsAccount uid (row_of p uid s) e
          × (row_of p uid w ≡ some e)
          × ((create p e.uid e.user_role w).0 ≡ ok dto)
          × ((entered uid s).1 ≡ (create p e.uid e.user_role w).1)
    unfolding is_exist
    entered-account uid s h =
        let t = (is_exist p uid s).1 in
        let (exists, _, h', same) = continue-ok _ (is_exist p uid s).0 t dto h in
        let (_, saved, h'', same') = bind-ok _ (ensured uid exists) t dto h' in
        let u = (ensured uid exists t).1 in
        let (e, read, made, same'') = bind-ok _ (get_user_auth_entity p uid) u dto h'' in
        let (row, row') = got uid u e read in
        (
          e,
          (get_user_auth_entity p uid u).1,
          subst (λ o. IsAccount uid o e) (laws.users.row-exist uid s.users uid)
              (account uid exists t e saved row),
          row',
          made,
          same ∙ same' ∙ same'',
        )

    -- A Google login that answers with tokens has made them for the account of the email that Google
    -- vouched for: the one that was there, or else a new one that is marked as social and has the hash
    -- `-`.
    pub google_oauth_login-account :
        (s : State p)
        → (google_oauth_login p token s).0 ≡ ok dto
        → (uid : String) × (e : UserAuthEntity) × (w : State p) × MadeFor s
            (google_oauth_login p token s).1
            uid
            e
            w
    unfolding google_oauth_login decode_credential_token
    google_oauth_login-account s h =
        let err = auth_invalid_oauth_token (some "This token is not allowed.") in
        let r = crypto.verify_google s.now token in
        let decoded = caught (λ _. raise err) r s in
        let (payload, vouched, h', same) = continue-ok _ decoded.0 decoded.1 dto h in
        let (good, kept) = verified err r s payload vouched in
        let (uid, named, h'', same') =
          continue-ok (entered) (email_of p payload) decoded.1 dto h' in
        let done : (entered uid s).0 ≡ ok dto = ap (λ t. (entered uid t).0) (sym kept) ∙ h'' in
        let (e, w, is, row, made, after) = entered-account uid s done in
        (
          uid,
          e,
          w,
          (
            good ∙ ap ok (email_named payload uid named),
            is,
            row,
            made,
            same ∙ same' ∙ ap (λ t. (entered uid t).1) kept ∙ after,
          ),
        )
