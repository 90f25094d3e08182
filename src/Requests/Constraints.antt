-- ===== src/Requests/Constraints.antt =====
-- Every request that ends normally leaves rows that satisfy the constraints of the tables.
use production_library_manag.Prelude.{
  ℕ, String, Option, none, some, Bool, true, false, List, [], ◌∷◌, ◌+◌,
}
use production_library_manag.Enums.{ReservationStatus, is_hold}
use production_library_manag.Models.{Book, BorrowRecord, Reservation}
use production_library_manag.Session.{
  M, Env, Session, flush, observe, pure, transactional, ◌>>=◌, ◌>>◌,
}
use production_library_manag.Session.Logic.{Ensures, both-Ensures}
use production_library_manag.Session.Safe.{IsSettled}
use production_library_manag.Session.Preserve.{Preserves, preserves, transactional-Preserves}
use production_library_manag.Session.Flushed.{
  Satisfied, Restores, flush-Restores, before-Restores, after-Restores, Restores-Preserves,
  restores,
}
use production_library_manag.Repositories.Borrows
use production_library_manag.Repositories.Reservations
use production_library_manag.Services.Reservations.{
  restore_copy, promote_or_restore, promote_body, promote_next_reservation, promote_if, closed_as,
  count_reservation, expire_hold, expire_holds, process_expired_holds, process_expired_holds_body,
  cancel_reservation, cancel_reservation_body, place_reservation, place_reservation_body,
}
use production_library_manag.Services.Borrows.{
  Config, give_back, close_loan, return_book, return_book_body, renew_book, renew_book_body,
  borrow_book, borrow_book_body, lend, renewed_by,
}
use production_library_manag.Repositories.Books.{Attribute}
use production_library_manag.Services.Books.{
  create_book, create_book_body, update_book, update_book_body, delete_book, delete_book_body,
}
use production_library_manag.Limits.Untouched
use production_library_manag.Inventory.Defs.{IsBalanced}
use production_library_manag.Requests.{Request, handle, run}
use production_library_manag.Requests.Settled.{respond-Ensures, run-IsSettled}
use production_library_manag.Requests.Balance.{handle-IsBalanced}

-- A change, and the flush that follows it.
pub write-Restores :
    {A B : Type 0} (m : M A) (k : M B) → Preserves Satisfied k → Restores (m >>= λ _. flush >> k)
write-Restores m k p =
    before-Restores m _ (λ _. after-Restores flush (λ _. k) flush-Restores (λ _. p))

restore_copy-Satisfied : (o : Option Book) → Preserves Satisfied (restore_copy o)
unfolding restore_copy
restore_copy-Satisfied none = search preserves
restore_copy-Satisfied (some b) = Restores-Preserves _ (before-Restores _ _ (λ _. flush-Restores))

new_reservation-Satisfied :
    (r : Reservation)
    → Preserves Satisfied
        (Reservations.create r >>= λ _. flush >> (observe count_reservation >> pure r))
new_reservation-Satisfied r = Restores-Preserves _ (write-Restores _ _ (search preserves))

module _ (env : Env) where
  promote_or_restore-Satisfied :
      (i : ℕ) (o : Option Reservation) → Preserves Satisfied (promote_or_restore env i o)
  unfolding promote_or_restore
  promote_or_restore-Satisfied i none =
      search (preserves, Untouched.get_book-Preserves, restore_copy-Satisfied)
  promote_or_restore-Satisfied i (some r) =
      Restores-Preserves _ (write-Restores _ _ (search preserves))

  promote-Satisfied : (i : ℕ) → Preserves Satisfied (promote_next_reservation env i)
  unfolding promote_next_reservation promote_body
  promote-Satisfied i =
      search (preserves, Untouched.get_fifo-Preserves, promote_or_restore-Satisfied)

  promote_if-Satisfied : (b : Bool) (i : ℕ) → Preserves Satisfied (promote_if b env i)
  promote_if-Satisfied true i = promote-Satisfied i
  promote_if-Satisfied false i = search preserves

  expire_hold-Satisfied : (r : Reservation) → Preserves Satisfied (expire_hold env r)
  unfolding expire_hold
  expire_hold-Satisfied r = Restores-Preserves _ (write-Restores _ _ (promote-Satisfied r.book_id))

  expire_holds-Satisfied :
      (l : List Reservation) (n : ℕ) → Preserves Satisfied (expire_holds env l n)
  unfolding expire_holds
  expire_holds-Satisfied [] n = search preserves
  expire_holds-Satisfied (r ∷ l) n =
      search (preserves, expire_hold-Satisfied r, expire_holds-Satisfied l (n + 1))

  pub sweep-Satisfied : Preserves Satisfied (process_expired_holds env)
  unfolding process_expired_holds process_expired_holds_body
  sweep-Satisfied =
      search (preserves, Untouched.get_expired_holds-Preserves, expire_holds-Satisfied)

  save_cancelled-Satisfied :
      (r : Reservation)
      → Preserves Satisfied (
          Reservations.update (closed_as ReservationStatus.cancelled r) >>= λ _.
          flush
          >> (promote_if (is_hold r.status) env r.book_id >>= λ _.
              pure (closed_as ReservationStatus.cancelled r)))
  save_cancelled-Satisfied r =
      Restores-Preserves _ (write-Restores _ _ (search (preserves, promote_if-Satisfied)))

  pub cancel-Satisfied : (i m : ℕ) → Preserves Satisfied (cancel_reservation env i m)
  unfolding cancel_reservation cancel_reservation_body
  cancel-Satisfied i m =
      search (preserves, Untouched.get_reservation-Preserves, save_cancelled-Satisfied) depth 14

  pub place-Satisfied : (m i : ℕ) → Preserves Satisfied (place_reservation env m i)
  unfolding place_reservation place_reservation_body
  place-Satisfied m i =
      search
        (
          preserves, Untouched.get_book-Preserves, Untouched.check_request-Preserves,
          new_reservation-Satisfied,
        )
        depth 14

  module _ (cfg : Config) where
    give_back-Satisfied : (i : ℕ) → Preserves Satisfied (give_back env cfg i)
    unfolding give_back
    give_back-Satisfied i =
        search (preserves, Untouched.get_book-Preserves, promote-Satisfied, restore_copy-Satisfied)

    close_loan-Satisfied : (r : BorrowRecord) → Preserves Satisfied (close_loan env cfg r)
    unfolding close_loan
    close_loan-Satisfied r =
        Restores-Preserves _ (write-Restores _ _ (search (preserves, give_back-Satisfied)))

    pub return-Satisfied : (i : ℕ) → Preserves Satisfied (return_book env cfg i)
    unfolding return_book return_book_body
    return-Satisfied i = search (preserves, close_loan-Satisfied) depth 10

    save_renewed-Satisfied :
        (r : BorrowRecord)
        → Preserves Satisfied
            (Borrows.update (renewed_by cfg r) >> (flush >> pure (renewed_by cfg r)))
    save_renewed-Satisfied r = Restores-Preserves _ (write-Restores _ _ (search preserves))

    pub renew-Satisfied : (i : ℕ) → Preserves Satisfied (renew_book env cfg i)
    unfolding renew_book renew_book_body
    renew-Satisfied i =
        search (preserves, Untouched.check_renewal-Preserves, save_renewed-Satisfied) depth 12

    lend-Restores : (m i : ℕ) (b : Book) → Restores (lend env cfg m i b)
    unfolding lend
    lend-Restores m i b = search (restores, preserves) depth 12

    lend-Satisfied : (m i : ℕ) (b : Book) → Preserves Satisfied (lend env cfg m i b)
    lend-Satisfied m i b = Restores-Preserves (lend env cfg m i b) (lend-Restores m i b)

    pub borrow-Satisfied : (m i : ℕ) → Preserves Satisfied (borrow_book env cfg m i)
    unfolding borrow_book borrow_book_body
    borrow-Satisfied m i =
        search
          (
            preserves, Untouched.get_member-Preserves, Untouched.validate-Preserves,
            Untouched.get_book-Preserves, lend-Satisfied,
          )
          depth 14

  create-Restores :
      (t a : Option String) (n : String) (total : ℕ) (g : Option String)
      → Restores (create_book_body env t a n total g)
  unfolding create_book_body
  create-Restores t a n total g = search (restores, preserves) depth 10

  update-Restores : (i : ℕ) (l : List Attribute) → Restores (update_book_body env i l)
  unfolding update_book_body
  update-Restores i l = search (restores, preserves) depth 12

  delete-Restores : (i : ℕ) → Restores (delete_book_body env i)
  unfolding delete_book_body
  delete-Restores i = search restores

-- A transaction that restores the constraints keeps them.
transaction-Satisfied : {A : Type 0} (m : M A) → Restores m → Preserves Satisfied (transactional m)
transaction-Satisfied m r = transactional-Preserves Satisfied m (Restores-Preserves m r)

pub handle-Satisfied :
    (env : Env) (cfg : Config) (q : Request) → Ensures Satisfied (handle env cfg q) (λ _. Satisfied)
unfolding handle create_book update_book delete_book
handle-Satisfied env cfg (Request.create_book t a n total g) =
    respond-Ensures _ ((transaction-Satisfied _ (create-Restores env t a n total g)).ensured)
handle-Satisfied env cfg (Request.update_book i l) =
    respond-Ensures _ ((transaction-Satisfied _ (update-Restores env i l)).ensured)
handle-Satisfied env cfg (Request.delete_book i) =
    respond-Ensures _ ((transaction-Satisfied _ (delete-Restores env i)).ensured)
handle-Satisfied env cfg (Request.borrow_book m i) =
    respond-Ensures _ ((borrow-Satisfied env cfg m i).ensured)
handle-Satisfied env cfg (Request.return_book i) =
    respond-Ensures _ ((return-Satisfied env cfg i).ensured)
handle-Satisfied env cfg (Request.renew_book i) =
    respond-Ensures _ ((renew-Satisfied env cfg i).ensured)
handle-Satisfied env cfg (Request.place_reservation m i) =
    respond-Ensures _ ((place-Satisfied env m i).ensured)
handle-Satisfied env cfg (Request.cancel_reservation i m) =
    respond-Ensures _ ((cancel-Satisfied env i m).ensured)
handle-Satisfied env cfg Request.sweep = respond-Ensures _ ((sweep-Satisfied env).ensured)

-- The constraints of the tables, and that every copy is accounted for, hold after any history of
-- requests.
pub run-Ordered :
    (cfg : Config) (history : List (Env × Request)) (s : Session)
    → IsSettled (λ d. Satisfied d × IsBalanced none d) s
    → IsSettled (λ d. Satisfied d × IsBalanced none d) (run cfg history s)
run-Ordered cfg =
    run-IsSettled (λ d. Satisfied d × IsBalanced none d) cfg
      (λ env q. both-Ensures _ (handle-Satisfied env cfg q) (handle-IsBalanced env cfg q))
