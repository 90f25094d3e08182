-- ===== src/Requests/Loans.antt =====
-- Between requests no member has more open loans than the limit.
use production_library_manag.Prelude.{List}
use production_library_manag.Session.{Env, Session}
use production_library_manag.Session.Logic.{Ensures}
use production_library_manag.Services.Borrows.{Config}
use production_library_manag.Requests.{
  Request, create_book, update_book, delete_book, borrow_book, return_book, renew_book,
  place_reservation, cancel_reservation, sweep, handle, run,
}
use production_library_manag.Session.Safe.{IsSettled}
use production_library_manag.Requests.Settled.{respond-Ensures, run-IsSettled}
use production_library_manag.Limits.Untouched
use production_library_manag.Limits.Loans.{Within, borrow_book-Within}
use production_library_manag.Limits.Changes.{return_book-Within, renew_book-Within}

pub handle-Within :
    (env : Env) (cfg : Config) (q : Request)
    → Ensures (Within cfg.max_borrow_limit) (handle env cfg q) (λ _. Within cfg.max_borrow_limit)
unfolding handle
handle-Within env cfg (create_book t a n total g) =
    respond-Ensures _
      ((Untouched.create_service-Preserves _ (λ b d h. h) (λ b d h. h) env t a n total g).ensured)
handle-Within env cfg (update_book i l) =
    respond-Ensures _ ((Untouched.update_service-Preserves _ (λ b d h. h) env i l).ensured)
handle-Within env cfg (delete_book i) =
    respond-Ensures _ ((Untouched.delete_service-Preserves _ (λ b d h. h) env i).ensured)
handle-Within env cfg (borrow_book m i) = respond-Ensures _ (borrow_book-Within env cfg m i)
handle-Within env cfg (return_book i) = respond-Ensures _ (return_book-Within _ env cfg i)
handle-Within env cfg (renew_book i) = respond-Ensures _ (renew_book-Within _ env cfg i)
handle-Within env cfg (place_reservation m i) =
    respond-Ensures _
      ((Untouched.place-Preserves _ (λ b d h. h) env (λ r d h. h) (λ r d h. h) m i).ensured)
handle-Within env cfg (cancel_reservation i m) =
    respond-Ensures _ ((Untouched.cancel-Preserves _ (λ b d h. h) env (λ r d h. h) i m).ensured)
handle-Within env cfg sweep =
    respond-Ensures _ ((Untouched.sweep-Preserves _ (λ b d h. h) env (λ r d h. h)).ensured)

-- From a settled session in which no member has more loans BORROWED or RENEWED than
-- `max_borrow_limit` and no loan is OVERDUE, any history of requests leads to such a session again.
pub run-Within :
    (cfg : Config) (history : List (Env × Request)) (s : Session)
    → IsSettled (Within cfg.max_borrow_limit) s
    → IsSettled (Within cfg.max_borrow_limit) (run cfg history s)
run-Within cfg = run-IsSettled (Within cfg.max_borrow_limit) cfg (λ env q. handle-Within env cfg q)
