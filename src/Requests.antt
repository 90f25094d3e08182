-- ===== src/Requests.antt =====
-- The requests that change the library's books, loans and reservations, as the routes of
-- app/api/v1 (books.py, borrow.py, reservations.py) hand them to the services that
-- app/dependencies/auth.py wires together, the sweep of expired holds among them. The ids
-- that a route takes from the authenticated user are arguments.
pub mod Settled
pub mod Balance
pub mod Loans
pub mod Queues
pub mod Constraints
use production_library_manag.Prelude.{ℕ, Option, List, [], ◌∷◌, String}
use production_library_manag.Session.{M, Env, Session, pure, ◌>>=◌}
use production_library_manag.Repositories.Books.{Attribute}
use production_library_manag.Services.Books
use production_library_manag.Services.Reservations
use production_library_manag.Services.Borrows
use production_library_manag.Services.Borrows.{Config}

pub data Request : Type 0 where
  create_book :
      (title author : Option String) (isbn : String) (total : ℕ) (genre : Option String) → Request
  update_book : (book_id : ℕ) → List Attribute → Request
  delete_book : (book_id : ℕ) → Request
  borrow_book : (member_id book_id : ℕ) → Request
  return_book renew_book : (borrow_id : ℕ) → Request
  place_reservation : (member_id book_id : ℕ) → Request
  cancel_reservation : (reservation_id member_id : ℕ) → Request
  sweep : Request

-- The answer's content is dropped; whether it is an exception is kept.
abbrev pub respond : {A : Type 0} → M A → M (Unit {0})
respond m = m >>= λ _. pure tt

unfoldable pub handle : Env → Config → Request → M (Unit {0})
handle env cfg (create_book title author isbn total genre) =
    respond (Books.create_book env title author isbn total genre)
handle env cfg (update_book i attributes) = respond (Books.update_book env i attributes)
handle env cfg (delete_book i) = respond (Books.delete_book env i)
handle env cfg (borrow_book m i) = respond (Borrows.borrow_book env cfg m i)
handle env cfg (return_book i) = respond (Borrows.return_book env cfg i)
handle env cfg (renew_book i) = respond (Borrows.renew_book env cfg i)
handle env cfg (place_reservation m i) = respond (Reservations.place_reservation env m i)
handle env cfg (cancel_reservation i m) = respond (Reservations.cancel_reservation env i m)
handle env cfg sweep = respond (Reservations.process_expired_holds env)

-- A history: each request with what it gets from outside.
unfoldable pub run : Config → List (Env × Request) → Session → Session
unfolding handle
run cfg [] s = s
run cfg ((env, request) ∷ rest) s = run cfg rest (handle env cfg request s).1
