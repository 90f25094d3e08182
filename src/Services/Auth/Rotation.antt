-- ===== src/Services/Auth/Rotation.antt =====
-- What becomes of a refresh token that is presented.
use production_library_manag.Prelude.{
  ℕ, ◌≡◌, ◌≤◌, ◌<◌, refl, none, some, Bool, true, false, ◌&&◌, not, List, [], ◌∷◌, map, String,
  arith, count, select, ltb, ◌==◌,
}
use production_library_manag.Prelude.Rows.{find}
use production_library_manag.Enums.{is_active_user}
use production_library_manag.Errors.{Error}
use production_library_manag.Models.{User, RefreshToken, Db, token_key, satisfies_constraints}
use production_library_manag.Session.{Env, Session, ok, err, scalar_one_or_none, transactional}
use production_library_manag.Repositories.Users
use production_library_manag.Repositories.Tokens
use production_library_manag.Security.{Crypto, create_access_token}
use production_library_manag.Services.Auth.{
  access_token, ClientMetadata, new_token, revoke, revoke_in, revoke_family, reuse_detected, expire,
  rotate, refresh_token_body, refresh_token,
}
use production_library_manag.Services.Auth.Exchange.{
  IsExchanged, rotation-satisfied, rotation-IsExchanged,
}

abbrev pub is_live_in : ℕ → RefreshToken → Bool
is_live_in family_id t = t.family_id == family_id && not t.revoked

abbrev pub is_outside : ℕ → RefreshToken → Bool
is_outside family_id t = not (t.family_id == family_id)

none_live :
    (f : ℕ) (tokens : List RefreshToken) → count (is_live_in f) (map (revoke_in f) tokens) ≡ 0
none_live f [] = refl
none_live f (t ∷ tokens) = ground (arith, none_live f tokens)

others_kept :
    (f : ℕ) (tokens : List RefreshToken)
    → select (is_outside f) (map (revoke_in f) tokens) ≡ select (is_outside f) tokens
others_kept f [] = refl
others_kept f (t ∷ tokens) = ground (arith, others_kept f tokens)

module _ (env : Env) (crypto : Crypto) (raw : String) (client : ClientMetadata) where
  -- The token's row is found.
  abbrev pub Presented : RefreshToken → Db → Type 0
  Presented t d =
      scalar_one_or_none (select (Tokens.has_hash (crypto.generate_token_fingerprint raw)) d.tokens)
      ≡ ok (some t)

  reuse_committed :
      (s : Session) (t : RefreshToken)
      → s.depth ≡ 0
      → Presented t s.db
      → t.revoked ≡ true
      → satisfies_constraints (revoke_family t.family_id s.db) ≡ true
      → ((refresh_token env crypto raw client s).0 ≡ err Error.token_revoked)
        × ((refresh_token env crypto raw client s).1.committed ≡ revoke_family t.family_id s.db)
  unfolding refresh_token refresh_token_body reuse_detected transactional Tokens.get_by_token_hash
  reuse_committed s t outside found used accepted =
      simp (outside, found, used, accepted) (refl, refl)

  expired_rolled_back :
      (s : Session) (t : RefreshToken)
      → s.depth ≡ 0
      → Presented t s.db
      → t.revoked ≡ false
      → t.expires_at < env.now
      → satisfies_constraints (Tokens.save (revoke t) s.db) ≡ true
      → ((refresh_token env crypto raw client s).0 ≡ err Error.token_expired)
        × ((refresh_token env crypto raw client s).1.committed ≡ s.db)
        × ((refresh_token env crypto raw client s).1.db ≡ s.db)
  unfolding refresh_token refresh_token_body expire transactional Tokens.get_by_token_hash
      Tokens.update
  expired_rolled_back s t outside found unused late accepted =
      let past : ltb t.expires_at env.now ≡ true = ground arith in
      simp (outside, found, unused, past, accepted) (refl, refl, refl)

  -- A token that has been used before is refused, whatever its date: if the database accepts the
  -- rows, it is committed that no token of its family is live any more, and the tokens of other
  -- families are as they were.
  pub refresh_token-reuse :
      (s : Session) (t : RefreshToken)
      → s.depth ≡ 0
      → Presented t s.db
      → t.revoked ≡ true
      → satisfies_constraints (revoke_family t.family_id s.db) ≡ true
      → ((refresh_token env crypto raw client s).0 ≡ err Error.token_revoked)
        × (count (is_live_in t.family_id) (refresh_token env crypto raw client s).1.committed.tokens
            ≡ 0)
        × (select
              (is_outside t.family_id)
              (refresh_token env crypto raw client s).1.committed.tokens
            ≡ select (is_outside t.family_id) s.db.tokens)
  refresh_token-reuse s t outside found used accepted =
      let done = reuse_committed s t outside found used accepted in
      (
        done.0,
        rw done.1 (none_live t.family_id s.db.tokens),
        rw done.1 (others_kept t.family_id s.db.tokens),
      )

  -- A token past its date that has not been used is refused, if the database accepts the mark, and nothing is committed: the mark
  -- that the service sets on it is undone with the transaction, so it is still unrevoked.
  pub refresh_token-expired :
      (s : Session) (t : RefreshToken)
      → s.depth ≡ 0
      → Presented t s.db
      → t.revoked ≡ false
      → t.expires_at < env.now
      → satisfies_constraints (Tokens.save (revoke t) s.db) ≡ true
      → ((refresh_token env crypto raw client s).0 ≡ err Error.token_expired)
        × ((refresh_token env crypto raw client s).1.committed ≡ s.db)
        × Presented t (refresh_token env crypto raw client s).1.db
  refresh_token-expired s t outside found unused late accepted =
      let done = expired_rolled_back s t outside found unused late accepted in
      (done.0, done.1, rw done.2 found)

  abbrev rotated : RefreshToken → Db → Db
  rotated t d =
      Tokens.added (new_token env crypto client t.user_id t.family_id (env.uuid 1))
        (Tokens.save (revoke t) d)

  rotation_committed :
      (s : Session) (t : RefreshToken) (u : User)
      → s.depth ≡ 0
      → Presented t s.db
      → t.revoked ≡ false
      → env.now ≤ t.expires_at
      → Users.get_by_id t.user_id s.db ≡ some u
      → is_active_user u.status ≡ true
      → satisfies_constraints (rotated t s.db) ≡ true
      → ((refresh_token env crypto raw client s).0
          ≡ ok (access_token env crypto u, crypto.random_token))
        × ((refresh_token env crypto raw client s).1.committed ≡ rotated t s.db)
  unfolding refresh_token refresh_token_body rotate transactional Tokens.get_by_token_hash
      Tokens.update Tokens.create Users.get_by_id
  rotation_committed s t u outside found unused in_time user active accepted =
      let current : ltb t.expires_at env.now ≡ false = ground arith in
      simp (outside, found, unused, current, user, active, accepted) (refl, refl)

  -- On rows that satisfy the constraints, a token in date that has not been used, of an active
  -- user, is exchanged, if no token has the id or the fingerprint that are drawn for the new one:
  -- the answer is an access token with the user's id and role and the drawn raw token. What is
  -- committed: the presented raw token finds its row revoked, the drawn one finds a token of the
  -- same user and family for this client that is not revoked and lasts seven days from now, and
  -- all else is as it was.
  pub refresh_token-rotates :
      (s : Session) (t : RefreshToken) (u : User)
      → s.depth ≡ 0
      → satisfies_constraints s.db ≡ true
      → Presented t s.db
      → t.revoked ≡ false
      → env.now ≤ t.expires_at
      → Users.get_by_id t.user_id s.db ≡ some u
      → is_active_user u.status ≡ true
      → find (env.uuid 1) s.db.tokens ≡ none
      → select (Tokens.has_hash (crypto.generate_token_fingerprint crypto.random_token)) s.db.tokens
        ≡ []
      → ((refresh_token env crypto raw client s).0
          ≡ ok (
            create_access_token crypto.jose crypto.manager env.now u.id (env.uuid 0) u.role,
            crypto.random_token,
          ))
        × IsExchanged env.now
            (crypto.generate_token_fingerprint raw)
            (crypto.generate_token_fingerprint crypto.random_token)
            client
            t
            s.db
            (refresh_token env crypto raw client s).1.committed
  refresh_token-rotates s t u outside ordered found unused in_time user active unknown unheard =
      let old = crypto.generate_token_fingerprint raw in
      let drawn = crypto.generate_token_fingerprint crypto.random_token in
      let new = new_token env crypto client t.user_id t.family_id (env.uuid 1) in
      let accepted = rotation-satisfied old drawn t new s.db ordered found unheard unknown refl in
      let done = rotation_committed s t u outside found unused in_time user active accepted in
      (
        done.0,
        rw done.1 (
            rotation-IsExchanged old drawn t new s.db ordered found unheard unknown refl env.now
              client refl refl refl refl refl refl refl),
      )
