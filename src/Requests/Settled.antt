-- ===== src/Requests/Settled.antt =====
-- Every request is all or nothing, so what each request keeps holds after any history.
use production_library_manag.Prelude.{◌≡◌, List, [], ◌∷◌, arith}
use production_library_manag.Models.{Db}
use production_library_manag.Session.{
  M, Env, Session, Result, ok, err, transactional, catch_operational, pure, and_then,
}
use production_library_manag.Session.Atomic.{
  Frames, Atomically, transactional-Atomically, catch_operational-Frames,
}
use production_library_manag.Session.Logic.{Ensures, OnOk, reads-Ensures, pure-Reads, >>=-Ensures}
use production_library_manag.Session.Safe.{IsSettled}
use production_library_manag.Services.Books
use production_library_manag.Services.Reservations
use production_library_manag.Services.Borrows
use production_library_manag.Services.Borrows.{Config}
use production_library_manag.Services.Atomicity
use production_library_manag.Requests.{
  Request, create_book, update_book, delete_book, borrow_book, return_book, renew_book,
  place_reservation, cancel_reservation, sweep, respond, handle, run,
}

respond-Atomically :
    {A : Type 0} (s : Session) (x : Result A × Session)
    → Atomically s x
    → Atomically s (and_then x (λ _. pure tt))
respond-Atomically s (ok a, s') h = h
respond-Atomically s (err e, s') h = h

module _ {A : Type 0} where
  service-Atomically :
      (m : M A)
      → Frames m
      → (s : Session) → s.depth ≡ 0
      → Atomically s (respond (transactional m) s)
  service-Atomically m p s h =
      respond-Atomically s (transactional m s) (transactional-Atomically m p s h)

  guarded-Atomically :
      (m : M A)
      → Frames m
      → (s : Session) → s.depth ≡ 0
      → Atomically s (respond (transactional (catch_operational m)) s)
  guarded-Atomically m p = service-Atomically (catch_operational m) (catch_operational-Frames m p)

  pub respond-Ensures :
      {P : Db → Type 0} (m : M A) → Ensures P m (λ _. P) → Ensures P (respond m) (λ _. P)
  respond-Ensures {P} m p = >>=-Ensures m _ p (λ _. reads-Ensures P _ (pure-Reads tt))

-- A request that begins outside any transaction either succeeds, and then what it has done is
-- committed, or raises, and then both what the session sees and what is committed are as the
-- session saw the database when it began. Either way no transaction is open at the end.
pub handle-Atomically :
    (env : Env) (cfg : Config) (q : Request) (s : Session)
    → s.depth ≡ 0
    → Atomically s (handle env cfg q s)
unfolding handle Books.create_book Books.update_book Books.delete_book Borrows.borrow_book
    Borrows.return_book Borrows.renew_book Reservations.place_reservation
    Reservations.cancel_reservation Reservations.process_expired_holds
handle-Atomically env cfg (create_book t a n total g) =
    service-Atomically _ (Atomicity.create_book_body-Frames env t a n total g)
handle-Atomically env cfg (update_book i l) =
    service-Atomically _ (Atomicity.update_book_body-Frames env i l)
handle-Atomically env cfg (delete_book i) =
    service-Atomically _ (Atomicity.delete_book_body-Frames env i)
handle-Atomically env cfg (borrow_book m i) =
    guarded-Atomically _ (Atomicity.borrow_book_body-Frames env cfg m i)
handle-Atomically env cfg (return_book i) =
    guarded-Atomically _ (Atomicity.return_book_body-Frames env cfg i)
handle-Atomically env cfg (renew_book i) =
    guarded-Atomically _ (Atomicity.renew_book_body-Frames env cfg i)
handle-Atomically env cfg (place_reservation m i) =
    service-Atomically _ (Atomicity.place_reservation_body-Frames env m i)
handle-Atomically env cfg (cancel_reservation i m) =
    service-Atomically _ (Atomicity.cancel_reservation_body-Frames env i m)
handle-Atomically env cfg sweep =
    service-Atomically _ (Atomicity.process_expired_holds_body-Frames env)

module _ (P : Db → Type 0) where
  settled :
      {A : Type 0} (s : Session) (x : Result A × Session)
      → P s.db
      → Atomically s x
      → OnOk (λ _. P) x
      → IsSettled P x.1
  settled s (ok a, s') b h k = record { outside = h.1; saved = h.0; kept = k }
  settled s (err e, s') b h k = record {
    outside = h.2;
    saved = ground (arith, h.0, h.1);
    kept = rw h.0 b;
  }

  module _ (cfg : Config)
      (keeps : (env : Env) (q : Request) → Ensures P (handle env cfg q) (λ _. P)) where
    pub handle-IsSettled :
        (env : Env) (q : Request) (s : Session) → IsSettled P s → IsSettled P (handle env cfg q s).1
    handle-IsSettled env q s h =
        settled s (handle env cfg q s) h.kept (handle-Atomically env cfg q s h.outside)
          ((keeps env q).on_ok s h.kept)

    pub run-IsSettled :
        (history : List (Env × Request)) (s : Session)
        → IsSettled P s
        → IsSettled P (run cfg history s)
    unfolding run
    run-IsSettled [] s h = h
    run-IsSettled ((env, q) ∷ rest) s h =
        run-IsSettled rest (handle env cfg q s).1 (handle-IsSettled env q s h)
