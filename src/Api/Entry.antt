-- ===== src/Api/Entry.antt =====
-- From a login to the next request.
use production_library_manag.Prelude.{
  ℕ, ◌+◌, ◌*◌, ◌≡◌, ◌≤◌, refl, sym, subst, Option, some, Bool, true, false, not, String, str_eq,
  select, arith,
}
use production_library_manag.Prelude.Rows.{find, distinct_keys, distinct_keys-IsKeyed}
use production_library_manag.Enums.{is_active_user, second}
use production_library_manag.Errors.{Error}
use production_library_manag.Models.{User, Db, user_key, satisfies_constraints}
use production_library_manag.Session.{Env, Session, ok, scalar_one_or_none, pure}
use production_library_manag.Session.Logic.{
  Ensures, OnOk, query_one-Ensures, or_raise-Ensures, raise_if-Ensures, modify-Ensures,
  flush-Ensures, >>=-Ensures, transactional-Ensures,
}
use production_library_manag.Security.{Crypto, decode_and_validate_token, claims}
use production_library_manag.Security.Lifetime.{IsFaithful, decode-create}
use production_library_manag.Repositories.Users
use production_library_manag.Repositories.Tokens
use production_library_manag.Repositories.Selection.{one-select}
use production_library_manag.Services.Auth.{
  ClientMetadata, access_token, new_token, login_body, login,
}
use production_library_manag.Api.Dependencies.{Http, token_payload, get_current_user}

module _ (env : Env) (crypto : Crypto) (email password : String) (client : ClientMetadata)
    (user : User) where
  abbrev has_email : User → Bool
  has_email u = str_eq u.email email

  -- The row that the email finds.
  abbrev Known : Db → Type 0
  Known d = scalar_one_or_none (select has_email d.users) ≡ ok (some user)

  abbrev Issued : String × String → Db → Type 0
  Issued answer d =
      (answer.0 ≡ access_token env crypto user)
      × (find user.id d.users ≡ some user)
      × (is_active_user user.status ≡ true)

  -- What the guards have established of the row that was found.
  abbrev Checked : Option User → User → Db → Type 0
  Checked o u d =
      (((Known d × (scalar_one_or_none (select has_email d.users) ≡ ok o)) × (o ≡ some u))
        × (not (is_active_user u.status) ≡ false))
      × (not (crypto.verify_password password u.password_hash) ≡ false)

  issued :
      (o : Option User) (u : User)
      → Ensures
          (λ d. Checked o u d × (satisfies_constraints d ≡ true))
          (pure (access_token env crypto u, crypto.random_token))
          Issued
  unfolding satisfies_constraints
  issued o u = record {
    on_ok = λ s h.
        let same : u ≡ user = ground (arith, h) in
        let unique : distinct_keys s.db.users ≡ true = ground (arith, h.1) in
        let (there, chosen) =
          one-select has_email s.db.users user (distinct_keys-IsKeyed s.db.users unique)
            h.0.0.0.0.0 in
        (ground (arith, same), there, ground (arith, same, h.0.0.1));
  }

  login_body-Issued : Ensures Known (login_body env crypto email password client) Issued
  unfolding login_body Users.get_by_email Tokens.create
  login_body-Issued = >>=-Ensures _ _ (query_one-Ensures Known (λ d. select has_email d.users)) λ o.
      >>=-Ensures _ _ (or_raise-Ensures _ o Error.invalid_credentials) λ u.
        >>=-Ensures _ _ (raise_if-Ensures _ (not (is_active_user u.status)) Error.inactive_user)
          λ _.
            >>=-Ensures _ _
              (raise_if-Ensures _ (not (crypto.verify_password password u.password_hash))
                Error.invalid_credentials)
              λ _.
                >>=-Ensures _ _
                  (modify-Ensures (Checked o u)
                    (Tokens.added (new_token env crypto client u.id (env.uuid 1) (env.uuid 2)))
                    (λ d h. h))
                  λ _. >>=-Ensures _ _ (flush-Ensures (Checked o u)) (λ _. issued o u)

  pub login-Issued : Ensures Known (login env crypto email password client) Issued
  unfolding login
  login-Issued = transactional-Ensures _ login_body-Issued

-- The caller that a valid token names.
recognized :
    (http : Http) (scheme token : String) (user : User) (made jti : ℕ) (s : Session)
    → http.authorization ≡ some (record { scheme = scheme; credentials = token })
    → str_eq (http.lower scheme) "bearer" ≡ true
    → decode_and_validate_token http.crypto.jose http.crypto.manager http.env.now token
      ≡ some (claims http.crypto.manager made user.id jti user.role)
    → find user.id s.db.users ≡ some user
    → is_active_user user.status ≡ true
    → get_current_user http s ≡ (ok user, s)
unfolding get_current_user token_payload Users.get_by_id
recognized http scheme token user made jti s sent bearer valid there active =
    simp (sent, bearer, valid, there, active) refl

-- A login that succeeds answers an access token. Until the token's minutes have passed, a request
-- that carries it as a bearer token is a request of the user whose email was given: the user's row
-- is found, and the user is active. The python-jose that both use is assumed to be faithful to the
-- token's claims.
pub get_current_user-login :
    (env : Env) (crypto : Crypto) (email password : String) (client : ClientMetadata) (user : User)
    (s s' : Session) (access refresh : String) (http : Http) (scheme : String)
    → scalar_one_or_none (select (λ u. str_eq u.email email) s.db.users) ≡ ok (some user)
    → login env crypto email password client s ≡ (ok (access, refresh), s')
    → IsFaithful crypto.jose crypto.manager
        (claims crypto.manager env.now user.id (env.uuid 0) user.role)
    → http.crypto ≡ crypto
    → http.authorization ≡ some (record { scheme = scheme; credentials = access })
    → str_eq (http.lower scheme) "bearer" ≡ true
    → env.now ≤ http.env.now
    → http.env.now ≤ env.now + crypto.manager.access_token_expire_minutes * 60 * second
    → get_current_user http s' ≡ (ok user, s')
get_current_user-login env crypto email password client user s s' access refresh http scheme known
      entered faithful same sent bearer later in_time =
    let (token, there, active) : Issued env crypto email password client user (access, refresh)
        s'.db =
      subst (OnOk (Issued env crypto email password client user)) entered
        ((login-Issued env crypto email password client user).on_ok s known) in
    let valid : decode_and_validate_token crypto.jose crypto.manager http.env.now access
        ≡ some (claims crypto.manager env.now user.id (env.uuid 0) user.role) =
      subst
        (λ t.
          decode_and_validate_token crypto.jose crypto.manager http.env.now t
          ≡ some (claims crypto.manager env.now user.id (env.uuid 0) user.role))
        (sym token)
        (decode-create crypto.jose crypto.manager env.now http.env.now user.id (env.uuid 0)
          user.role faithful later in_time) in
    recognized http scheme access user env.now (env.uuid 0) s' sent bearer
      (subst
        (λ c.
          decode_and_validate_token c.jose c.manager http.env.now access
          ≡ some (claims c.manager env.now user.id (env.uuid 0) user.role))
        (sym same) valid)
      there active
