-- ===== src/Services/Atomicity.antt =====
-- No service commits inside its block or leaves it: so each of them is all or nothing.
use production_library_manag.Prelude.{
  ℕ, ◌+◌, Option, none, some, Bool, true, false, List, [], ◌∷◌, String,
}
use production_library_manag.Prelude.Int.{ℤ}
use production_library_manag.Models.{Book, Member, BorrowRecord, Reservation}
use production_library_manag.Session.{Env}
use production_library_manag.Session.Atomic.{Frames, frames, pure-Frames, if-Frames}
use production_library_manag.Repositories.Books
use production_library_manag.Repositories.Books.{Attribute}
use production_library_manag.Repositories.Members
use production_library_manag.Repositories.Borrows
use production_library_manag.Repositories.Reservations
use production_library_manag.Services.Books.{
  create_book_body, adjust_copies, update_book_body, delete_book_body,
}
use production_library_manag.Services.Reservations.{
  check_member, check_request, restore_copy, promote_or_restore, promote_body,
  promote_next_reservation, promote_if, expire_hold, expire_holds, place_reservation_body,
  cancel_reservation_body, process_expired_holds_body,
}
use production_library_manag.Services.Borrows.{
  Config, validate_member_for_borrow, find_active_hold, complete_hold, take_copy, lend, give_back,
  close_loan, check_renewal, borrow_book_body, return_book_body, renew_book_body,
}

module _ (env : Env) where
  get_member-Frames : (i : ℕ) → Frames (Members.get_by_id_for_update env i)
  unfolding Members.get_by_id_for_update
  get_member-Frames i = search frames

  get_book-Frames : (i : ℕ) → Frames (Books.get_by_id_for_update env i)
  unfolding Books.get_by_id_for_update
  get_book-Frames i = search frames

  get_reservation-Frames : (i : ℕ) → Frames (Reservations.get_by_id_for_update env i)
  unfolding Reservations.get_by_id_for_update
  get_reservation-Frames i = search frames

  get_fifo-Frames : (i : ℕ) → Frames (Reservations.get_fifo_pending_by_book_id env i)
  unfolding Reservations.get_fifo_pending_by_book_id
  get_fifo-Frames i = search frames

  get_expired_holds-Frames : Frames (Reservations.get_expired_holds env)
  unfolding Reservations.get_expired_holds
  get_expired_holds-Frames = search frames

  mark_deleted-Frames : (o : Option Book) → Frames (Books.mark_deleted env o)
  unfolding Books.mark_deleted
  mark_deleted-Frames none = search frames
  mark_deleted-Frames (some b) = search frames

  delete-Frames : (i : ℕ) → Frames (Books.delete env i)
  unfolding Books.delete
  delete-Frames i = search (frames, mark_deleted-Frames)

get_by_isbn-Frames : (number : String) → Frames (Books.get_by_isbn number)
unfolding Books.get_by_isbn
get_by_isbn-Frames number = search frames

get_active-Frames : (m i : ℕ) → Frames (Reservations.get_active_by_member_and_book m i)
unfolding Reservations.get_active_by_member_and_book
get_active-Frames m i = search frames

update_book-Frames : (b : Book) (l : List Attribute) → Frames (Books.update b l)
unfolding Books.update
update_book-Frames b l = search frames

create_book-Frames : (b : Book) → Frames (Books.create b)
unfolding Books.create
create_book-Frames b = search frames

update_loan-Frames : (r : BorrowRecord) → Frames (Borrows.update r)
unfolding Borrows.update
update_loan-Frames r = search frames

create_loan-Frames : (r : BorrowRecord) → Frames (Borrows.create r)
unfolding Borrows.create
create_loan-Frames r = search frames

update_reservation-Frames : (r : Reservation) → Frames (Reservations.update r)
unfolding Reservations.update
update_reservation-Frames r = search frames

create_reservation-Frames : (r : Reservation) → Frames (Reservations.create r)
unfolding Reservations.create
create_reservation-Frames r = search frames

ruleset rows = (
  frames, get_member-Frames, get_book-Frames, get_reservation-Frames, get_fifo-Frames,
  get_expired_holds-Frames, delete-Frames, get_by_isbn-Frames, get_active-Frames,
  update_book-Frames, create_book-Frames, update_loan-Frames, create_loan-Frames,
  update_reservation-Frames, create_reservation-Frames,
)

check_member-Frames : (m : Option Member) → Frames (check_member m)
unfolding check_member
check_member-Frames none = search frames
check_member-Frames (some m) = search frames

restore_copy-Frames : (o : Option Book) → Frames (restore_copy o)
unfolding restore_copy
restore_copy-Frames none = search rows
restore_copy-Frames (some b) = search rows

adjust_copies-Frames : (o : Option (Option ℤ)) (b : Book) → Frames (adjust_copies o b)
unfolding adjust_copies
adjust_copies-Frames none b = search frames
adjust_copies-Frames (some none) b = search frames
adjust_copies-Frames (some (some n)) b = search frames

complete_hold-Frames : (m : ℕ) (o : Option Reservation) → Frames (complete_hold m o)
unfolding complete_hold
complete_hold-Frames m none = search rows
complete_hold-Frames m (some r) = search rows

take_copy-Frames : (c : Bool) (b : Book) → Frames (take_copy c b)
unfolding take_copy
take_copy-Frames true b = search rows
take_copy-Frames false b = search rows

module _ (env : Env) where
  promote_or_restore-Frames : (i : ℕ) (o : Option Reservation) → Frames (promote_or_restore env i o)
  unfolding promote_or_restore
  promote_or_restore-Frames i none = search (rows, restore_copy-Frames)
  promote_or_restore-Frames i (some r) = search rows

  promote-Frames : (i : ℕ) → Frames (promote_next_reservation env i)
  unfolding promote_next_reservation promote_body
  promote-Frames i = search (rows, promote_or_restore-Frames)

  promote_if-Frames : (b : Bool) (i : ℕ) → Frames (promote_if b env i)
  promote_if-Frames true i = promote-Frames i
  promote_if-Frames false i = pure-Frames tt

  expire_hold-Frames : (r : Reservation) → Frames (expire_hold env r)
  unfolding expire_hold
  expire_hold-Frames r = search (rows, promote-Frames)

  expire_holds-Frames : (l : List Reservation) (n : ℕ) → Frames (expire_holds env l n)
  unfolding expire_holds
  expire_holds-Frames [] n = pure-Frames n
  expire_holds-Frames (r ∷ l) n = search (rows, expire_hold-Frames r, expire_holds-Frames l (n + 1))

  check_request-Frames : (m i : ℕ) (b : Book) → Frames (check_request env m i b)
  unfolding check_request
  check_request-Frames m i b = search (rows, check_member-Frames) depth 20

  find_active_hold-Frames : (i : ℕ) → Frames (find_active_hold env i)
  unfolding find_active_hold
  find_active_hold-Frames i = search frames

  module _ (cfg : Config) where
    validate-Frames : (m : Member) → Frames (validate_member_for_borrow env cfg m)
    unfolding validate_member_for_borrow
    validate-Frames m = search frames depth 12

    give_back-Frames : (i : ℕ) → Frames (give_back env cfg i)
    unfolding give_back
    give_back-Frames i = search (rows, promote-Frames, restore_copy-Frames, if-Frames)

    close_loan-Frames : (r : BorrowRecord) → Frames (close_loan env cfg r)
    unfolding close_loan
    close_loan-Frames r = search (rows, give_back-Frames) depth 8

    check_renewal-Frames : (r : BorrowRecord) → Frames (check_renewal env cfg r)
    unfolding check_renewal
    check_renewal-Frames r = search frames depth 8

    lend-Frames : (m i : ℕ) (b : Book) → Frames (lend env cfg m i b)
    unfolding lend
    lend-Frames m i b =
        search (rows, find_active_hold-Frames, complete_hold-Frames, take_copy-Frames) depth 14

    pub borrow_book_body-Frames : (m i : ℕ) → Frames (borrow_book_body env cfg m i)
    unfolding borrow_book_body
    borrow_book_body-Frames m i = search (rows, validate-Frames, lend-Frames) depth 14

    pub return_book_body-Frames : (i : ℕ) → Frames (return_book_body env cfg i)
    unfolding return_book_body
    return_book_body-Frames i = search (rows, close_loan-Frames, if-Frames) depth 10

    pub renew_book_body-Frames : (i : ℕ) → Frames (renew_book_body env cfg i)
    unfolding renew_book_body
    renew_book_body-Frames i = search (rows, check_renewal-Frames) depth 12

  pub place_reservation_body-Frames : (m i : ℕ) → Frames (place_reservation_body env m i)
  unfolding place_reservation_body
  place_reservation_body-Frames m i = search (rows, check_request-Frames) depth 12

  pub cancel_reservation_body-Frames : (i m : ℕ) → Frames (cancel_reservation_body env i m)
  unfolding cancel_reservation_body
  cancel_reservation_body-Frames i m = search (rows, promote_if-Frames) depth 12

  pub process_expired_holds_body-Frames : Frames (process_expired_holds_body env)
  unfolding process_expired_holds_body
  process_expired_holds_body-Frames = search (rows, expire_holds-Frames)

  pub create_book_body-Frames :
      (t a : Option String) (n : String) (total : ℕ) (g : Option String)
      → Frames (create_book_body env t a n total g)
  unfolding create_book_body
  create_book_body-Frames t a n total g = search rows depth 10

  pub update_book_body-Frames : (i : ℕ) (l : List Attribute) → Frames (update_book_body env i l)
  unfolding update_book_body
  update_book_body-Frames i l = search (rows, adjust_copies-Frames) depth 12

  pub delete_book_body-Frames : (i : ℕ) → Frames (delete_book_body env i)
  unfolding delete_book_body
  delete_book_body-Frames i = search rows
