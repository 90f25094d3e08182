-- ===== src/Limits/Requests.antt =====
-- The services keep the limits on active reservations.
use production_library_manag.Prelude.{
  ℕ, ◌+◌, ◌≡◌, Option, none, some, Bool, true, false, List, [], ◌∷◌, select,
}
use production_library_manag.Models.{Book, BorrowRecord, Reservation, reservation_key}
use production_library_manag.Session.{Env, ◌>>=◌}
use production_library_manag.Session.Logic.{
  Ensures, reads-Ensures, >>=-Ensures, strengthen-Ensures, transactional-Ensures, observe-Reads,
  >>-Reads, flush-Reads,
}
use production_library_manag.Session.Preserve.{
  Preserves, preserves, pure-Preserves, modify-Preserves,
}
use production_library_manag.Repositories.Books
use production_library_manag.Repositories.Borrows
use production_library_manag.Repositories.Reservations
use production_library_manag.Repositories.Selection.{get_fifo-Ensures}
use production_library_manag.Services.Reservations.{
  count_promotion, promote_or_restore, restore_copy, promote_body, promote_next_reservation,
  promote_if, cancel_reservation_body, cancel_reservation, expire_hold, expire_holds,
  process_expired_holds_body, process_expired_holds,
}
use production_library_manag.Services.Borrows.{
  Config, complete_hold, take_copy, lend, borrow_book_body, borrow_book, give_back, close_loan,
  return_book_body, return_book, renew_book_body, renew_book,
}
use production_library_manag.Limits.Untouched
use production_library_manag.Limits.Queue.{Orderly, close-Preserves, hold-Ensures}

restore_copy-Orderly : (o : Option Book) → Preserves Orderly (restore_copy o)
restore_copy-Orderly = Untouched.restore_copy-Preserves _ (λ b d h. h)

module _ (env : Env) where
  promote_or_restore-Orderly :
      (i : ℕ) (o : Option Reservation)
      → Ensures
          (λ d.
            Orderly d
            × (o ≡ Reservations.oldest (select (Reservations.is_pending_for i) d.reservations)))
          (promote_or_restore env i o)
          (λ _. Orderly)
  unfolding promote_or_restore
  promote_or_restore-Orderly i none =
      let shelved : Preserves Orderly (Books.get_by_id_for_update env i >>= restore_copy) =
        search (preserves, Untouched.get_book-Preserves, restore_copy-Orderly) in
      strengthen-Ensures _ (λ d h. h.0) shelved.ensured
  promote_or_restore-Orderly i (some r) =
      >>=-Ensures _ _ (hold-Ensures env i r)
        λ _. reads-Ensures _ _ (>>-Reads _ _ flush-Reads (observe-Reads count_promotion))

  promote-Orderly : (i : ℕ) → Preserves Orderly (promote_next_reservation env i)
  unfolding promote_next_reservation promote_body
  promote-Orderly i = record {
    ensured =
        transactional-Ensures _
          (>>=-Ensures _ _ (get_fifo-Ensures _ env i) (promote_or_restore-Orderly i));
  }

  promote_if-Orderly : (b : Bool) (i : ℕ) → Preserves Orderly (promote_if b env i)
  promote_if-Orderly true i = promote-Orderly i
  promote_if-Orderly false i = pure-Preserves _ tt

  pub cancel-Orderly : (i m : ℕ) → Preserves Orderly (cancel_reservation env i m)
  unfolding cancel_reservation cancel_reservation_body
  cancel-Orderly i m =
      search (preserves, Untouched.get_reservation-Preserves, close-Preserves, promote_if-Orderly)
        depth 14

  expire_hold-Orderly : (r : Reservation) → Preserves Orderly (expire_hold env r)
  unfolding expire_hold
  expire_hold-Orderly r = search (preserves, close-Preserves, promote-Orderly)

  expire_holds-Orderly : (l : List Reservation) (n : ℕ) → Preserves Orderly (expire_holds env l n)
  unfolding expire_holds
  expire_holds-Orderly [] n = pure-Preserves _ n
  expire_holds-Orderly (r ∷ l) n =
      search (preserves, expire_hold-Orderly r, expire_holds-Orderly l (n + 1))

  pub sweep-Orderly : Preserves Orderly (process_expired_holds env)
  unfolding process_expired_holds process_expired_holds_body
  sweep-Orderly = search (preserves, Untouched.get_expired_holds-Preserves, expire_holds-Orderly)

  module _ (cfg : Config) where
    complete_hold-Orderly : (m : ℕ) (o : Option Reservation) → Preserves Orderly (complete_hold m o)
    unfolding complete_hold
    complete_hold-Orderly m none = search preserves
    complete_hold-Orderly m (some r) = search (preserves, close-Preserves)

    take_copy-Orderly : (c : Bool) (b : Book) → Preserves Orderly (take_copy c b)
    take_copy-Orderly = Untouched.take_copy-Preserves _ (λ b d h. h)

    create_loan-Orderly : (r : BorrowRecord) → Preserves Orderly (Borrows.create r)
    unfolding Borrows.create
    create_loan-Orderly r = modify-Preserves _ _ (λ d h. h)

    update_loan-Orderly : (r : BorrowRecord) → Preserves Orderly (Borrows.update r)
    unfolding Borrows.update
    update_loan-Orderly r = modify-Preserves _ _ (λ d h. h)

    lend-Orderly : (m i : ℕ) (b : Book) → Preserves Orderly (lend env cfg m i b)
    unfolding lend
    lend-Orderly m i b =
        search
          (
            preserves, Untouched.find_active_hold-Preserves, complete_hold-Orderly,
            take_copy-Orderly, create_loan-Orderly,
          )
          depth 12

    pub borrow-Orderly : (m i : ℕ) → Preserves Orderly (borrow_book env cfg m i)
    unfolding borrow_book borrow_book_body
    borrow-Orderly m i =
        search
          (
            preserves, Untouched.get_member-Preserves, Untouched.get_book-Preserves,
            Untouched.validate-Preserves, lend-Orderly,
          )
          depth 14

    give_back-Orderly : (i : ℕ) → Preserves Orderly (give_back env cfg i)
    unfolding give_back
    give_back-Orderly i =
        search (preserves, Untouched.get_book-Preserves, promote-Orderly, restore_copy-Orderly)

    close_loan-Orderly : (r : BorrowRecord) → Preserves Orderly (close_loan env cfg r)
    unfolding close_loan
    close_loan-Orderly r = search (preserves, update_loan-Orderly, give_back-Orderly)

    pub return-Orderly : (i : ℕ) → Preserves Orderly (return_book env cfg i)
    unfolding return_book return_book_body
    return-Orderly i = search (preserves, close_loan-Orderly) depth 10

    pub renew-Orderly : (i : ℕ) → Preserves Orderly (renew_book env cfg i)
    unfolding renew_book renew_book_body
    renew-Orderly i =
        search (preserves, Untouched.check_renewal-Preserves, update_loan-Orderly) depth 12
