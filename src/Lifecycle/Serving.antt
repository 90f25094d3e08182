-- ===== src/Lifecycle/Serving.antt =====
-- The sweep, the checkout, the return and the renewal move a reservation along its path only.
use production_library_manag.Prelude.{
  ℕ, ◌≡◌, refl, Option, none, some, Bool, true, List, All-mono, select, arith,
}
use production_library_manag.Prelude.Rows.{IsKeyed, select-IsKeyed, select-find}
use production_library_manag.Enums.{ReservationStatus}
use production_library_manag.Models.{Book, BorrowRecord, Reservation, Db, reservation_key}
use production_library_manag.Session.{Env, ok, scalar_one_or_none, expired_rows}
use production_library_manag.Session.Logic.{
  Ensures, reads-Ensures, query-Ensures, raise_if-Reads, lock-Reads, modify-Ensures, >>=-Ensures,
  transactional-Ensures, flush-Reads, pure-Reads, observe-Reads, >>-Reads,
}
use production_library_manag.Session.Preserve.{Preserves, preserves, modify-Preserves}
use production_library_manag.Repositories.Borrows
use production_library_manag.Repositories.Reservations
use production_library_manag.Repositories.Selection.{one-select}
use production_library_manag.Services.Reservations.{
  closed_as, expire_holds, process_expired_holds_body, process_expired_holds,
}
use production_library_manag.Services.Borrows.{
  Config, is_hold_for, complete_hold, take_copy, new_loan, count_borrowing, lend, borrow_book_body,
  borrow_book, give_back, close_loan, return_book_body, return_book, renew_book_body, renew_book,
}
use production_library_manag.Inventory.Lending.{find_active_hold-Ensures}
use production_library_manag.Inventory.Sweep.{Held}
use production_library_manag.Limits.Untouched
use production_library_manag.Lifecycle.Waiting.{completion, hold_status}
use production_library_manag.Lifecycle.Queueing.{
  Queued, same_request, step-Queued, restore_copy-Queued, promote-Queued, expire_holds-Queued,
}

module _ (start : Db) (env : Env) where
  abbrev K : Db → Type 0
  K = Queued start

  lapsed-Held :
      (d : Db)
      → IsKeyed d.reservations
      → Held (select (Reservations.is_expired_hold env.now) d.reservations) d
  lapsed-Held d k =
      All-mono _ (λ x p. (p.0, ground (arith, p.1)))
        (select-find (Reservations.is_expired_hold env.now) d.reservations k)

  expire_all :
      (rows : List Reservation)
      → Ensures
          (λ d. K d × (rows ≡ select (Reservations.is_expired_hold env.now) d.reservations))
          (expire_holds env rows 0)
          (λ _. K)
  expire_all rows = record {
    on_ok = λ s h.
        let keyed : IsKeyed rows =
          rw h.1 (select-IsKeyed (Reservations.is_expired_hold env.now) s.db.reservations h.0.0) in
        (expire_holds-Queued start env rows 0 keyed).on_ok s (h.0, rw h.1 (lapsed-Held s.db h.0.0));
  }

  pub process_expired_holds-Queued : Ensures K (process_expired_holds env) (λ _. K)
  unfolding process_expired_holds process_expired_holds_body Reservations.get_expired_holds
  process_expired_holds-Queued = transactional-Ensures _ (
      >>=-Ensures _ _
        (>>=-Ensures _ _ (reads-Ensures K _ (lock-Reads env expired_rows)) (λ _. query-Ensures K _))
        expire_all)

  -- What is known when the hold has been looked up.
  abbrev WithHold : ℕ → Option Reservation → Db → Type 0
  WithHold i o d = K d × (scalar_one_or_none (select (is_hold_for i) d.reservations) ≡ ok o)

  save_completed-Queued :
      (i : ℕ) (r : Reservation)
      → Ensures
          (WithHold i (some r))
          (Reservations.update (closed_as ReservationStatus.completed r))
          (λ _. K)
  unfolding Reservations.update
  save_completed-Queued i r =
      let closed : Reservation = closed_as ReservationStatus.completed r in
      modify-Ensures _ (Reservations.save closed) λ d h.
        let (there, chosen) = one-select (is_hold_for i) d.reservations r h.0.0 h.1 in
        step-Queued start r closed d h.0 there (
          completion (same_request r closed refl refl refl refl)
            (hold_status r.status (ground (arith, chosen))) refl refl)

  complete_hold-Queued :
      (m i : ℕ) (o : Option Reservation) → Ensures (WithHold i o) (complete_hold m o) (λ _. K)
  unfolding complete_hold
  complete_hold-Queued m i none = record { on_ok = λ s h. h.0 }
  complete_hold-Queued m i (some r) = >>=-Ensures _ _ (reads-Ensures _ _ (raise_if-Reads _ _)) λ _.
      >>=-Ensures _ _ (save_completed-Queued i r)
        λ _. reads-Ensures K _ (>>-Reads _ _ flush-Reads (pure-Reads true))

  create_loan-Queued : (r : BorrowRecord) → Preserves K (Borrows.create r)
  unfolding Borrows.create
  create_loan-Queued r = modify-Preserves K _ (λ d h. h)

  update_loan-Queued : (r : BorrowRecord) → Preserves K (Borrows.update r)
  unfolding Borrows.update
  update_loan-Queued r = modify-Preserves K _ (λ d h. h)

  take_copy-Queued : (c : Bool) (b : Book) → Preserves K (take_copy c b)
  take_copy-Queued = Untouched.take_copy-Preserves K (λ b d h. h)

  module _ (cfg : Config) where
    lend-Queued : (m i : ℕ) (b : Book) → Preserves K (lend env cfg m i b)
    unfolding lend
    lend-Queued m i b = record {
      ensured = >>=-Ensures _ _ (find_active_hold-Ensures env cfg m i K) λ hold.
          >>=-Ensures _ _ (complete_hold-Queued m i hold) λ completed.
            >>=-Ensures _ _ ((take_copy-Queued completed b).ensured) λ _.
              >>=-Ensures _ _ ((create_loan-Queued (new_loan env cfg m i)).ensured) λ _.
                reads-Ensures K _ (
                  >>-Reads _ _ flush-Reads (
                    >>-Reads _ _ (observe-Reads count_borrowing)
                      (pure-Reads (new_loan env cfg m i))));
    }

    pub borrow_book-Queued : (m i : ℕ) → Preserves K (borrow_book env cfg m i)
    unfolding borrow_book borrow_book_body
    borrow_book-Queued m i =
        search
          (
            preserves, Untouched.get_member-Preserves, Untouched.get_book-Preserves,
            Untouched.validate-Preserves, lend-Queued,
          )
          depth 14

    give_back-Queued : (i : ℕ) → Preserves K (give_back env cfg i)
    unfolding give_back
    give_back-Queued i =
        search (preserves, Untouched.get_book-Preserves, promote-Queued, restore_copy-Queued)

    close_loan-Queued : (r : BorrowRecord) → Preserves K (close_loan env cfg r)
    unfolding close_loan
    close_loan-Queued r = search (preserves, update_loan-Queued, give_back-Queued)

    pub return_book-Queued : (i : ℕ) → Preserves K (return_book env cfg i)
    unfolding return_book return_book_body
    return_book-Queued i = search (preserves, close_loan-Queued) depth 10

    pub renew_book-Queued : (i : ℕ) → Preserves K (renew_book env cfg i)
    unfolding renew_book renew_book_body
    renew_book-Queued i =
        search (preserves, Untouched.check_renewal-Preserves, update_loan-Queued) depth 12
