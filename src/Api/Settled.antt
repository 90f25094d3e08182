-- ===== src/Api/Settled.antt =====
-- The services, called between requests, end between requests.
use production_library_manag.Prelude.{ℕ, ◌≡◌, refl, Option, none, some, List, String}
use production_library_manag.Models.{User, Member, RefreshToken, Db}
use production_library_manag.Session.{M, Env, Session, Result, ok, err, and_then, pure, modify}
use production_library_manag.Session.Logic.{Ensures}
use production_library_manag.Session.Looks.{pure-Looks}
use production_library_manag.Session.Safe.{IsSettled, Safe, safe, modify-Safe}
use production_library_manag.Session.Settling.{
  Settles, Looks-Settles, transactional-Settles, >>=-Settles,
}
use production_library_manag.Repositories.Books.{Attribute}
use production_library_manag.Repositories.Users
use production_library_manag.Repositories.Members
use production_library_manag.Repositories.Tokens
use production_library_manag.Security.{Crypto}
use production_library_manag.Services.Books
use production_library_manag.Services.Borrows
use production_library_manag.Services.Borrows.{Config}
use production_library_manag.Services.Reservations
use production_library_manag.Services.Auth
use production_library_manag.Services.Auth.{ClientMetadata}
use production_library_manag.Requests.{Request, respond, handle}
use production_library_manag.Requests.Settled.{handle-IsSettled}

module _ (P : Db → Type 0) where
  pub respond-Settles : {A : Type 0} (m : M A) → Settles P m → Settles P (respond m)
  respond-Settles m p = >>=-Settles P m _ p (λ _. Looks-Settles P (pure tt) (pure-Looks tt))

responded : {A : Type 0} (x : Result A × Session) → (and_then x (λ _. pure tt)).1 ≡ x.1
responded (ok a, s) = refl
responded (err e, s) = refl

module _ (P : Db → Type 0) (cfg : Config)
    (keeps : (env : Env) (q : Request) → Ensures P (handle env cfg q) (λ _. P)) where
  service-Settles :
      {A : Type 0} (m : M A)
      → ((s : Session) → IsSettled P s → IsSettled P (respond m s).1)
      → Settles P m
  service-Settles m p = record { settles = λ s h. rw (← responded (m s)) (p s h) }

  module _ (env : Env) where
    pub create_book-Settles :
        (t a : Option String) (n : String) (total : ℕ) (g : Option String)
        → Settles P (Books.create_book env t a n total g)
    unfolding handle
    create_book-Settles t a n total g =
        service-Settles _ (handle-IsSettled P cfg keeps env (Request.create_book t a n total g))

    pub update_book-Settles : (i : ℕ) (l : List Attribute) → Settles P (Books.update_book env i l)
    unfolding handle
    update_book-Settles i l =
        service-Settles _ (handle-IsSettled P cfg keeps env (Request.update_book i l))

    pub delete_book-Settles : (i : ℕ) → Settles P (Books.delete_book env i)
    unfolding handle
    delete_book-Settles i =
        service-Settles _ (handle-IsSettled P cfg keeps env (Request.delete_book i))

    pub borrow_book-Settles : (m i : ℕ) → Settles P (Borrows.borrow_book env cfg m i)
    unfolding handle
    borrow_book-Settles m i =
        service-Settles _ (handle-IsSettled P cfg keeps env (Request.borrow_book m i))

    pub return_book-Settles : (i : ℕ) → Settles P (Borrows.return_book env cfg i)
    unfolding handle
    return_book-Settles i =
        service-Settles _ (handle-IsSettled P cfg keeps env (Request.return_book i))

    pub renew_book-Settles : (i : ℕ) → Settles P (Borrows.renew_book env cfg i)
    unfolding handle
    renew_book-Settles i =
        service-Settles _ (handle-IsSettled P cfg keeps env (Request.renew_book i))

    pub place_reservation-Settles : (m i : ℕ) → Settles P (Reservations.place_reservation env m i)
    unfolding handle
    place_reservation-Settles m i =
        service-Settles _ (handle-IsSettled P cfg keeps env (Request.place_reservation m i))

    pub cancel_reservation-Settles : (i m : ℕ) → Settles P (Reservations.cancel_reservation env i m)
    unfolding handle
    cancel_reservation-Settles i m =
        service-Settles _ (handle-IsSettled P cfg keeps env (Request.cancel_reservation i m))

    pub sweep-Settles : Settles P (Reservations.process_expired_holds env)
    unfolding handle
    sweep-Settles = service-Settles _ (handle-IsSettled P cfg keeps env Request.sweep)

-- The services of accounts keep what does not depend on users, members and tokens.
module _ (P : Db → Type 0)
    (quiet : (d : Db) (us : List User) (ms : List Member) (ts : List RefreshToken)
      → P d
      → P (record d { users = us; members = ms; tokens = ts })) where
  create_user-Safe : (u : User) → Safe P (Users.create u)
  unfolding Users.create
  create_user-Safe u = modify-Safe P _ (λ d h. quiet d (Users.added u d).users d.members d.tokens h)

  create_member-Safe : (m : Member) → Safe P (Members.create m)
  unfolding Members.create
  create_member-Safe m =
      modify-Safe P _ (λ d h. quiet d d.users (Members.added m d).members d.tokens h)

  create_token-Safe : (t : RefreshToken) → Safe P (Tokens.create t)
  unfolding Tokens.create
  create_token-Safe t =
      modify-Safe P _ (λ d h. quiet d d.users d.members (Tokens.added t d).tokens h)

  update_token-Safe : (t : RefreshToken) → Safe P (Tokens.update t)
  unfolding Tokens.update
  update_token-Safe t =
      modify-Safe P _ (λ d h. quiet d d.users d.members (Tokens.save t d).tokens h)

  revoke_family-Safe : (i : ℕ) → Safe P (modify (Auth.revoke_family i))
  revoke_family-Safe i =
      modify-Safe P _ (λ d h. quiet d d.users d.members (Auth.revoke_family i d).tokens h)

  module _ (env : Env) (crypto : Crypto) where
    pub register-Settles :
        (name email password : String) → Settles P (Auth.register env crypto name email password)
    unfolding Auth.register Auth.register_body Users.get_by_email
    register-Settles name email password =
        transactional-Settles P _ (search (safe, create_user-Safe, create_member-Safe) depth 14)

    pub login-Settles :
        (email password : String) (client : ClientMetadata)
        → Settles P (Auth.login env crypto email password client)
    unfolding Auth.login Auth.login_body Users.get_by_email
    login-Settles email password client =
        transactional-Settles P _ (search (safe, create_token-Safe) depth 14)

    pub refresh-Settles :
        (raw : String) (client : ClientMetadata)
        → Settles P (Auth.refresh_token env crypto raw client)
    unfolding Auth.refresh_token Auth.refresh_token_body Auth.reuse_detected Auth.expire Auth.rotate
        Tokens.get_by_token_hash
    refresh-Settles raw client =
        transactional-Settles P _
          (search (safe, create_token-Safe, update_token-Safe, revoke_family-Safe) depth 20)

  module _ (crypto : Crypto) where
    revoke_found-Safe : (o : Option RefreshToken) → Safe P (Auth.revoke_found o)
    revoke_found-Safe none = search safe
    revoke_found-Safe (some t) = search (safe, update_token-Safe)

    pub logout-Settles : (raw : String) → Settles P (Auth.logout crypto raw)
    unfolding Auth.logout Tokens.get_by_token_hash
    logout-Settles raw = transactional-Settles P _ (search (safe, revoke_found-Safe) depth 8)
