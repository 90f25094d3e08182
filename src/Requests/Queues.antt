-- ===== src/Requests/Queues.antt =====
-- Between requests the active reservations are within their limits.
use production_library_manag.Prelude.{List}
use production_library_manag.Session.{Env, Session}
use production_library_manag.Session.Logic.{Ensures}
use production_library_manag.Services.Borrows.{Config}
use production_library_manag.Requests.{
  Request, create_book, update_book, delete_book, borrow_book, return_book, renew_book,
  place_reservation, cancel_reservation, sweep, handle, run,
}
use production_library_manag.Session.Safe.{IsSettled}
use production_library_manag.Requests.Settled.{respond-Ensures, run-IsSettled}
use production_library_manag.Limits.Untouched
use production_library_manag.Limits.Queue.{Orderly}
use production_library_manag.Limits.Requests.{
  cancel-Orderly, sweep-Orderly, borrow-Orderly, return-Orderly, renew-Orderly,
}
use production_library_manag.Limits.Placing.{place-Orderly}

pub handle-Orderly :
    (env : Env) (cfg : Config) (q : Request) → Ensures Orderly (handle env cfg q) (λ _. Orderly)
unfolding handle
handle-Orderly env cfg (create_book t a n total g) =
    respond-Ensures _
      ((Untouched.create_service-Preserves _ (λ b d h. h) (λ b d h. h) env t a n total g).ensured)
handle-Orderly env cfg (update_book i l) =
    respond-Ensures _ ((Untouched.update_service-Preserves _ (λ b d h. h) env i l).ensured)
handle-Orderly env cfg (delete_book i) =
    respond-Ensures _ ((Untouched.delete_service-Preserves _ (λ b d h. h) env i).ensured)
handle-Orderly env cfg (borrow_book m i) = respond-Ensures _ ((borrow-Orderly env cfg m i).ensured)
handle-Orderly env cfg (return_book i) = respond-Ensures _ ((return-Orderly env cfg i).ensured)
handle-Orderly env cfg (renew_book i) = respond-Ensures _ ((renew-Orderly env cfg i).ensured)
handle-Orderly env cfg (place_reservation m i) = respond-Ensures _ ((place-Orderly env m i).ensured)
handle-Orderly env cfg (cancel_reservation i m) =
    respond-Ensures _ ((cancel-Orderly env i m).ensured)
handle-Orderly env cfg sweep = respond-Ensures _ ((sweep-Orderly env).ensured)

-- From a settled session in which no member has more than three active reservations, nor two for
-- one book, and no two reservations have one id, any history of requests leads to such a session
-- again.
pub run-Orderly :
    (cfg : Config) (history : List (Env × Request)) (s : Session)
    → IsSettled Orderly s
    → IsSettled Orderly (run cfg history s)
run-Orderly cfg = run-IsSettled Orderly cfg (λ env q. handle-Orderly env cfg q)
