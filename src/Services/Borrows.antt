-- ===== src/Services/Borrows.antt =====
-- BorrowService of app/services/borrow_service.py. Log lines are not modelled.
pub mod Outcomes
pub mod Returns
pub mod Renewals
use production_library_manag.Prelude.{
  ℕ, ◌+◌, ◌-◌, ◌*◌, Option, none, some, Bool, true, false, ◌&&◌, not, List, [], ltb, leb, ◌==◌,
  length, select, if◌then◌else◌,
}
use production_library_manag.Enums.{
  BorrowStatus, ReservationStatus, MembershipStatus, is_active_member, is_suspended, is_returned,
  is_hold, day, max_renewals,
}
use production_library_manag.Errors.{Error}
use production_library_manag.Models.{Book, Member, BorrowRecord, Reservation}
use production_library_manag.Session.{
  M, Env, Metrics, hold_rows, transactional, catch_operational, lock, query, query_one, pure, raise,
  or_raise, raise_if, flush, observe, ◌>>=◌, ◌>>◌,
}
use production_library_manag.Repositories.Books
use production_library_manag.Repositories.Members
use production_library_manag.Repositories.Borrows
use production_library_manag.Repositories.Reservations
use production_library_manag.Services.Fine.{FlatDailyFineStrategy, default_strategy, calculate_fine}
use production_library_manag.Services.Reservations.{
  promote_next_reservation, restore_copy, closed_as,
}

-- The constructor's arguments. A reservation service is wired in or not; the policy is a parameter.
pub record Config : Type 0 where
  pub fine_calculator : FlatDailyFineStrategy
  pub has_pending_reservations : (member_id book_id : ℕ) → Bool
  pub max_borrow_limit : ℕ
  pub borrow_days : ℕ
  pub renewal_days : ℕ
  pub has_reservation_service : Bool

-- What `get_borrow_service` of app/dependencies/auth.py builds: the defaults, with NoReservationPolicy
-- and the reservation service.
abbrev pub default_config : Config
default_config = record {
  fine_calculator = default_strategy;
  has_pending_reservations = λ _ _. false;
  max_borrow_limit = 5;
  borrow_days = 14;
  renewal_days = 14;
  has_reservation_service = true;
}

unfoldable pub validate_member_for_borrow : Env → Config → Member → M (Unit {0})
validate_member_for_borrow env cfg member = do
  raise_if (not (is_active_member member.membership_status)) (
      if is_suspended member.membership_status
      then Error.member_suspended
      else Error.member_inactive)
  overdue_count ← query (Borrows.get_overdue_by_member_id_count member.id env.now)
  raise_if (ltb 0 overdue_count) Error.overdue_member
  active ← query (Borrows.get_active_by_member_id member.id)
  raise_if (leb cfg.max_borrow_limit (length active)) Error.borrow_limit_exceeded

abbrev pub is_hold_for : ℕ → Reservation → Bool
is_hold_for book_id r = r.book_id == book_id && is_hold r.status

-- `res_stmt`, the HOLD reservation of the book.
unfoldable pub find_active_hold : Env → ℕ → M (Option Reservation)
find_active_hold env book_id = do
  lock env (hold_rows book_id)
  query_one (λ d. select (is_hold_for book_id) d.reservations)

-- The answer is `reservation_completed`.
unfoldable pub complete_hold : ℕ → Option Reservation → M Bool
complete_hold member_id none = pure false
complete_hold member_id (some active_hold) = do
  raise_if (not (active_hold.member_id == member_id)) Error.reservation_not_held
  Reservations.update (closed_as ReservationStatus.completed active_hold)
  flush
  pure true

-- The availability test, and `book.available_copies -= 1`.
unfoldable pub take_copy : Bool → Book → M (Unit {0})
take_copy true book = pure tt
take_copy false book = do
  raise_if (leb book.available_copies 0) Error.book_unavailable
  Books.update (record book { available_copies = book.available_copies - 1 }) []

abbrev pub new_loan : Env → Config → ℕ → ℕ → BorrowRecord
new_loan env cfg member_id book_id = record {
  id = env.uuid 0;
  member_id = member_id;
  book_id = book_id;
  borrow_date = env.now;
  due_date = env.now + cfg.borrow_days * day;
  return_date = none;
  renewal_count = 0;
  status = BorrowStatus.borrowed;
}

abbrev pub count_borrowing : Metrics → Metrics
count_borrowing m = record m { active_borrowings = m.active_borrowings + 1 }

-- From the lock on the book's hold to the new loan.
unfoldable pub lend : Env → Config → ℕ → ℕ → Book → M BorrowRecord
unfolding find_active_hold complete_hold take_copy
lend env cfg member_id book_id book = do
  active_hold ← find_active_hold env book_id
  reservation_completed ← complete_hold member_id active_hold
  take_copy reservation_completed book
  let loan = new_loan env cfg member_id book_id
  Borrows.create loan
  flush
  observe count_borrowing
  pure loan

unfoldable pub borrow_book_body : Env → Config → ℕ → ℕ → M BorrowRecord
unfolding validate_member_for_borrow lend
borrow_book_body env cfg member_id book_id = do
  found_member ← Members.get_by_id_for_update env member_id
  member ← or_raise found_member Error.value_error
  validate_member_for_borrow env cfg member
  found_book ← Books.get_by_id_for_update env book_id
  book ← or_raise found_book Error.book_not_found
  raise_if book.is_deleted Error.book_not_found
  lend env cfg member_id book_id book

unfoldable pub borrow_book : Env → Config → ℕ → ℕ → M BorrowRecord
unfolding borrow_book_body
borrow_book env cfg member_id book_id =
    transactional (catch_operational (borrow_book_body env cfg member_id book_id))

-- `return_book` answers with the record and its attribute `fine_amount`, which is no column: it
-- is there only on the object that this call has changed.
abbrev pub returned_at : ℕ → BorrowRecord → BorrowRecord
returned_at now r = record r { return_date = some now; status = BorrowStatus.returned }

unfoldable pub give_back : Env → Config → ℕ → M (Unit {0})
give_back env cfg book_id =
    if cfg.has_reservation_service
    then promote_next_reservation env book_id
    else (Books.get_by_id_for_update env book_id >>= restore_copy)

unfoldable pub close_loan : Env → Config → BorrowRecord → M (BorrowRecord × Option ℕ)
unfolding give_back
close_loan env cfg loan = do
  let fine_incurred = calculate_fine cfg.fine_calculator loan.due_date env.now
  Borrows.update (returned_at env.now loan)
  flush
  give_back env cfg loan.book_id
  pure (returned_at env.now loan, some fine_incurred)

unfoldable pub return_book_body : Env → Config → ℕ → M (BorrowRecord × Option ℕ)
unfolding close_loan
return_book_body env cfg borrow_record_id = do
  found ← query (Borrows.get_by_id borrow_record_id)
  loan ← or_raise found Error.value_error
  if is_returned loan.status then pure (loan, none) else close_loan env cfg loan

unfoldable pub return_book : Env → Config → ℕ → M (BorrowRecord × Option ℕ)
unfolding return_book_body
return_book env cfg borrow_record_id =
    transactional (catch_operational (return_book_body env cfg borrow_record_id))

abbrev pub renewed_by : Config → BorrowRecord → BorrowRecord
renewed_by cfg r = record r {
  due_date = r.due_date + cfg.renewal_days * day;
  renewal_count = r.renewal_count + 1;
  status = BorrowStatus.renewed;
}

-- The guards of a renewal after the first.
unfoldable pub check_renewal : Env → Config → BorrowRecord → M (Unit {0})
check_renewal env cfg loan = do
  raise_if (leb max_renewals loan.renewal_count) Error.renewal_limit_exceeded
  raise_if (cfg.has_pending_reservations loan.member_id loan.book_id) Error.book_unavailable
  raise_if (ltb loan.due_date env.now) Error.overdue_member

unfoldable pub renew_book_body : Env → Config → ℕ → M BorrowRecord
unfolding check_renewal
renew_book_body env cfg borrow_record_id = do
  found ← query (Borrows.get_by_id borrow_record_id)
  loan ← or_raise found Error.value_error
  raise_if (is_returned loan.status) Error.book_already_returned
  check_renewal env cfg loan
  Borrows.update (renewed_by cfg loan)
  flush
  pure (renewed_by cfg loan)

unfoldable pub renew_book : Env → Config → ℕ → M BorrowRecord
unfolding renew_book_body
renew_book env cfg borrow_record_id =
    transactional (catch_operational (renew_book_body env cfg borrow_record_id))

-- `page` is at least 1.
unfoldable pub get_borrow_history : ℕ → ℕ → ℕ → M (List BorrowRecord)
get_borrow_history member_id page page_size =
    query (Borrows.get_history_by_member_id member_id ((page - 1) * page_size) page_size)
