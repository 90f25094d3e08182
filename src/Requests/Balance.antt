-- ===== src/Requests/Balance.antt =====
-- Between requests every copy is accounted for.
use production_library_manag.Prelude.{none, List}
use production_library_manag.Session.{Env, Session}
use production_library_manag.Session.Logic.{Ensures}
use production_library_manag.Services.Borrows.{Config}
use production_library_manag.Requests.{
  Request, create_book, update_book, delete_book, borrow_book, return_book, renew_book,
  place_reservation, cancel_reservation, sweep, handle, run,
}
use production_library_manag.Session.Safe.{IsSettled}
use production_library_manag.Requests.Settled.{respond-Ensures, run-IsSettled}
use production_library_manag.Inventory.Defs.{IsBalanced}
use production_library_manag.Inventory.Lending.{borrow_book-IsBalanced}
use production_library_manag.Inventory.Returning.{return_book-IsBalanced, renew_book-IsBalanced}
use production_library_manag.Inventory.Queue.{
  place_reservation-IsBalanced, cancel_reservation-IsBalanced,
}
use production_library_manag.Inventory.Sweep.{process_expired_holds-IsBalanced}
use production_library_manag.Inventory.Catalogue.{
  create_book-IsBalanced, update_book-IsBalanced, delete_book-IsBalanced,
}

pub handle-IsBalanced :
    (env : Env) (cfg : Config) (q : Request)
    → Ensures (IsBalanced none) (handle env cfg q) (λ _. IsBalanced none)
unfolding handle
handle-IsBalanced env cfg (create_book t a n total g) =
    respond-Ensures _ (create_book-IsBalanced env t a n total g)
handle-IsBalanced env cfg (update_book i l) = respond-Ensures _ (update_book-IsBalanced env i l)
handle-IsBalanced env cfg (delete_book i) = respond-Ensures _ (delete_book-IsBalanced env i)
handle-IsBalanced env cfg (borrow_book m i) = respond-Ensures _ (borrow_book-IsBalanced env cfg m i)
handle-IsBalanced env cfg (return_book i) = respond-Ensures _ (return_book-IsBalanced env cfg i)
handle-IsBalanced env cfg (renew_book i) = respond-Ensures _ (renew_book-IsBalanced env cfg i)
handle-IsBalanced env cfg (place_reservation m i) =
    respond-Ensures _ (place_reservation-IsBalanced env m i)
handle-IsBalanced env cfg (cancel_reservation i m) =
    respond-Ensures _ (cancel_reservation-IsBalanced env m i)
handle-IsBalanced env cfg sweep = respond-Ensures _ (process_expired_holds-IsBalanced env)

-- From a settled session in which, of every book that is not deleted, the copies on the shelf, out
-- on loan and kept for a HOLD reservation add up to its total, any history of requests leads to
-- such a session again.
pub run-IsBalanced :
    (cfg : Config) (history : List (Env × Request)) (s : Session)
    → IsSettled (IsBalanced none) s
    → IsSettled (IsBalanced none) (run cfg history s)
run-IsBalanced cfg = run-IsSettled (IsBalanced none) cfg (λ env q. handle-IsBalanced env cfg q)
