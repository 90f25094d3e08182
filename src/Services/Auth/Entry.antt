-- ===== src/Services/Auth/Entry.antt =====
-- From a registration to a login.
use production_library_manag.Prelude.{
  ◌≡◌, refl, subst, Option, none, some, Bool, true, false, List, [], ◌∷◌, String, str_eq, eq_iff,
  select,
}
use production_library_manag.Prelude.Rows.{select-insert}
use production_library_manag.Enums.{is_active_user}
use production_library_manag.Errors.{Error}
use production_library_manag.Models.{User, Db, satisfies_constraints}
use production_library_manag.Session.{Env, Session, ok, scalar_one_or_none, transactional}
use production_library_manag.Session.Atomic.{Frames, frames, Atomically, transactional-Atomically}
use production_library_manag.Session.Logic.{
  Ensures, OnOk, query_one-Ensures, raise_if-Ensures, modify-Ensures, reads-Ensures, pure-Ensures,
  flush-Reads, >>=-Ensures, transactional-Ensures,
}
use production_library_manag.Security.{Crypto}
use production_library_manag.Repositories.Users
use production_library_manag.Repositories.Members
use production_library_manag.Repositories.Tokens
use production_library_manag.Services.Reservations.{is_some}
use production_library_manag.Services.Auth.{
  ClientMetadata, new_user, new_member, register_body, register, new_token, access_token,
  login_body, login,
}

none_found :
    {A : Type 0} (o : Option A) (rows : List A)
    → scalar_one_or_none rows ≡ ok o
    → is_some o ≡ false
    → rows ≡ []
none_found o [] e h = refl
none_found none (x ∷ []) e h = cc
none_found (some a) (x ∷ []) e h = cc
none_found o (x ∷ y ∷ rest) e h = cc

module _ (env : Env) (crypto : Crypto) (name email password : String) where
  abbrev has_email : User → Bool
  has_email u = str_eq u.email email

  abbrev user : User
  user = new_user env crypto name email password

  -- The email finds the new row, and no other.
  abbrev Alone : Db → Type 0
  Alone d = select has_email d.users ≡ user ∷ []

  register_body-Frames : Frames (register_body env crypto name email password)
  unfolding register_body Users.get_by_email Users.create Members.create
  register_body-Frames = search frames depth 14

  added-Alone :
      (o : Option User) (d : Db)
      → scalar_one_or_none (select has_email d.users) ≡ ok o
      → is_some o ≡ false
      → Alone (Users.added user d)
  added-Alone o d e h =
      select-insert has_email user d.users (none_found o (select has_email d.users) e h)
        ((eq_iff email email).1 refl)

  register_body-Alone :
      Ensures
        (λ _. Unit {0})
        (register_body env crypto name email password)
        (λ u d. Alone d × (u ≡ user))
  unfolding register_body Users.get_by_email Users.create Members.create
  register_body-Alone =
      >>=-Ensures _ _ (query_one-Ensures (λ _. Unit {0}) (λ d. select has_email d.users)) λ o.
        >>=-Ensures _ _ (raise_if-Ensures _ (is_some o) Error.email_already_exists) λ _.
          >>=-Ensures _ _ (modify-Ensures _ (Users.added user) (λ d h. added-Alone o d h.0.1 h.1))
            λ _. >>=-Ensures _ _ (reads-Ensures Alone _ flush-Reads) λ _.
              >>=-Ensures _ _
                (modify-Ensures Alone (Members.added (new_member env crypto user)) (λ d h. h))
                λ _.
                  >>=-Ensures _ _ (reads-Ensures Alone _ flush-Reads) λ _. pure-Ensures Alone user

  register-Alone :
      Ensures
        (λ _. Unit {0})
        (register env crypto name email password)
        (λ u d. Alone d × (u ≡ user))
  unfolding register
  register-Alone = transactional-Ensures _ register_body-Alone

  register-Atomically :
      (s : Session) → s.depth ≡ 0 → Atomically s (register env crypto name email password s)
  unfolding register
  register-Atomically =
      transactional-Atomically (register_body env crypto name email password) register_body-Frames

login_known :
    (env : Env) (crypto : Crypto) (email password : String) (client : ClientMetadata) (u : User)
    (s : Session)
    → s.depth ≡ 0
    → select (λ u. str_eq u.email email) s.db.users ≡ u ∷ []
    → is_active_user u.status ≡ true
    → crypto.verify_password password u.password_hash ≡ true
    → satisfies_constraints
        (Tokens.added (new_token env crypto client u.id (env.uuid 1) (env.uuid 2)) s.db)
      ≡ true
    → (login env crypto email password client s).0
      ≡ ok (access_token env crypto u, crypto.random_token)
unfolding login login_body transactional Users.get_by_email Tokens.create
login_known env crypto email password client u s outside alone active verified accepted =
    simp (outside, alone, active, verified, accepted) refl

-- When a registration outside any transaction has succeeded, a login with its email and password
-- that follows answers an access token for the new user and the drawn refresh token, if the
-- password hasher verifies the password against its hash and the database accepts the row of the
-- refresh token.
pub login-register :
    (env env' : Env) (crypto : Crypto) (name email password : String) (client : ClientMetadata)
    (s s' : Session) (user : User)
    → s.depth ≡ 0
    → register env crypto name email password s ≡ (ok user, s')
    → crypto.verify_password password (crypto.hash_password password) ≡ true
    → satisfies_constraints
        (Tokens.added (new_token env' crypto client user.id (env'.uuid 1) (env'.uuid 2)) s'.db)
      ≡ true
    → (login env' crypto email password client s').0
      ≡ ok (access_token env' crypto user, crypto.random_token)
login-register env env' crypto name email password client s s' user outside entered verifies
      accepted =
    let (alone, same) : Alone env crypto name email password s'.db
        × (user ≡ new_user env crypto name email password) =
      subst
        (OnOk (λ u d.
          Alone env crypto name email password d × (u ≡ new_user env crypto name email password)))
        entered ((register-Alone env crypto name email password).on_ok s tt) in
    let ended : (s'.committed ≡ s'.db) × (s'.depth ≡ 0) =
      subst (Atomically s) entered (register-Atomically env crypto name email password s outside) in
    login_known env' crypto email password client user s' ended.1 (rw same alone) (rw same refl)
      (rw same verifies) accepted
