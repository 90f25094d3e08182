-- ===== src/Services/Reservations.antt =====
-- app/services/reservation_service.py. Log lines are not modelled.
pub mod Fifo
use production_library_manag.Prelude.{
  ℕ, ◌+◌, ◌*◌, Option, none, some, Bool, true, false, ◌&&◌, ◌||◌, not, List, [], ◌∷◌, map, ltb, leb,
  ◌==◌, any, if◌then◌else◌,
}
use production_library_manag.Enums.{
  ReservationStatus, is_out, is_inactive, is_suspended, is_hold, is_pending, is_active_reservation,
  hour, max_active_reservations, hold_duration_hours,
}
use production_library_manag.Errors.{Error}
use production_library_manag.Models.{Book, Member, BorrowRecord, Reservation, Db}
use production_library_manag.Session.{
  M, Env, Metrics, transactional, query, pure, raise, or_raise, raise_if, flush, observe, ◌>>=◌,
  ◌>>◌,
}
use production_library_manag.Repositories.Books
use production_library_manag.Repositories.Members
use production_library_manag.Repositories.Borrows
use production_library_manag.Repositories.Reservations

-- The member checks of `place_reservation`.
unfoldable pub check_member : Option Member → M (Unit {0})
check_member none = raise Error.member_inactive
check_member (some m) = do
  raise_if m.is_deleted Error.member_inactive
  raise_if (is_inactive m.membership_status) Error.member_inactive
  raise_if (is_suspended m.membership_status) Error.member_suspended

abbrev pub is_loan_of : ℕ → BorrowRecord → Bool
is_loan_of book_id r = r.book_id == book_id && is_out r.status

abbrev pub is_some : {A : Type 0} → Option A → Bool
is_some none = false
is_some (some _) = true

abbrev pub new_reservation : Env → ℕ → ℕ → Reservation
new_reservation env member_id book_id = record {
  id = env.uuid 0;
  member_id = member_id;
  book_id = book_id;
  reserved_at = env.now;
  expires_at = none;
  status = ReservationStatus.pending;
}

abbrev pub count_reservation : Metrics → Metrics
count_reservation m = record m { active_reservations = m.active_reservations + 1 }

abbrev pub count_promotion : Metrics → Metrics
count_promotion m = record m { reservation_promotions = m.reservation_promotions + 1 }

-- The guards between the book and the new row.
unfoldable pub check_request : Env → ℕ → ℕ → Book → M (Unit {0})
unfolding check_member
check_request env member_id book_id book = do
  raise_if (ltb 0 book.available_copies) Error.value_error
  active_count ← query (Reservations.get_active_by_member_id_count member_id)
  raise_if (leb max_active_reservations active_count) Error.reservation_limit_exceeded
  existing_active ← Reservations.get_active_by_member_and_book member_id book_id
  raise_if (is_some existing_active) Error.already_reserved
  member ← Members.get_by_id_for_update env member_id
  check_member member
  history ← query (Borrows.get_history_by_member_id member_id 0 20)
  raise_if (any (is_loan_of book_id) history) Error.book_already_borrowed

unfoldable pub place_reservation_body : Env → ℕ → ℕ → M Reservation
unfolding check_request
place_reservation_body env member_id book_id = do
  found ← Books.get_by_id_for_update env book_id
  book ← or_raise found Error.book_not_found
  raise_if book.is_deleted Error.book_not_found
  check_request env member_id book_id book
  let reservation = new_reservation env member_id book_id
  Reservations.create reservation
  flush
  observe count_reservation
  pure reservation

unfoldable pub place_reservation : Env → ℕ → ℕ → M Reservation
unfolding place_reservation_body
place_reservation env member_id book_id =
    transactional (place_reservation_body env member_id book_id)

abbrev pub held_until : Env → Reservation → Reservation
held_until env r = record r {
  status = ReservationStatus.hold;
  expires_at = some (env.now + hold_duration_hours * hour);
}

-- `book.available_copies += 1`, for a book that is there.
unfoldable pub restore_copy : Option Book → M (Unit {0})
restore_copy none = pure tt
restore_copy (some book) = do
  Books.update (record book { available_copies = book.available_copies + 1 }) []
  flush

unfoldable pub promote_or_restore : Env → ℕ → Option Reservation → M (Unit {0})
unfolding restore_copy
promote_or_restore env book_id (some next_res) = do
  Reservations.update (held_until env next_res)
  flush
  observe count_promotion
promote_or_restore env book_id none = do
  book ← Books.get_by_id_for_update env book_id
  restore_copy book

unfoldable pub promote_body : Env → ℕ → M (Unit {0})
unfolding promote_or_restore
promote_body env book_id = do
  next_res ← Reservations.get_fifo_pending_by_book_id env book_id
  promote_or_restore env book_id next_res

unfoldable pub promote_next_reservation : Env → ℕ → M (Unit {0})
unfolding promote_body
promote_next_reservation env book_id = transactional (promote_body env book_id)

abbrev pub closed_as : ReservationStatus → Reservation → Reservation
closed_as status r = record r { status = status; expires_at = none }

-- `if was_hold: await self.promote_next_reservation(res.book_id)`
abbrev pub promote_if : Bool → Env → ℕ → M (Unit {0})
promote_if true env book_id = promote_next_reservation env book_id
promote_if false env book_id = pure tt

unfoldable pub cancel_reservation_body : Env → ℕ → ℕ → M Reservation
cancel_reservation_body env reservation_id member_id = do
  found ← Reservations.get_by_id_for_update env reservation_id
  res ← or_raise found Error.reservation_not_found
  raise_if (not (res.member_id == member_id)) Error.reservation_not_found
  raise_if (not (is_active_reservation res.status)) Error.value_error
  let cancelled = closed_as ReservationStatus.cancelled res
  Reservations.update cancelled
  flush
  promote_if (is_hold res.status) env res.book_id
  pure cancelled

unfoldable pub cancel_reservation : Env → ℕ → ℕ → M Reservation
unfolding cancel_reservation_body
cancel_reservation env reservation_id member_id =
    transactional (cancel_reservation_body env reservation_id member_id)

-- One round of the sweep.
unfoldable pub expire_hold : Env → Reservation → M (Unit {0})
expire_hold env res = do
  Reservations.update (closed_as ReservationStatus.expired res)
  flush
  promote_next_reservation env res.book_id

unfoldable pub expire_holds : Env → List Reservation → ℕ → M ℕ
unfolding expire_hold
expire_holds env [] expired_count = pure expired_count
expire_holds env (res ∷ rest) expired_count =
    expire_hold env res >> expire_holds env rest (expired_count + 1)

unfoldable pub process_expired_holds_body : Env → M ℕ
unfolding expire_holds
process_expired_holds_body env = do
  expired_holds ← Reservations.get_expired_holds env
  expire_holds env expired_holds 0

unfoldable pub process_expired_holds : Env → M ℕ
unfolding process_expired_holds_body
process_expired_holds env = transactional (process_expired_holds_body env)

-- An entry of the answer: the reservation, and its place in the queue while it is PENDING.
abbrev pub queue_entry : Db → Reservation → Reservation × Option ℕ
queue_entry d r = (
  r,
  if is_pending r.status
      then some (Reservations.compute_queue_position r.book_id r.reserved_at d)
      else none,
)

unfoldable pub get_active_reservations : ℕ → M (List (Reservation × Option ℕ))
get_active_reservations member_id =
    query (λ d. map (queue_entry d) (Reservations.get_active_reservations_by_member member_id d))
