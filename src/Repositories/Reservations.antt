-- ===== src/Repositories/Reservations.antt =====
-- app/repositories/reservation_repository.py.
use production_library_manag.Prelude.{
  ℕ, ◌+◌, Option, none, some, Bool, false, ◌&&◌, List, [], ◌∷◌, if◌then◌else◌, select, count, ltb,
  leb, ◌==◌,
}
use production_library_manag.Prelude.Rows.{find, put, insert}
use production_library_manag.Enums.{is_pending, is_hold, is_active_reservation}
use production_library_manag.Models.{Reservation, Db, reservation_key}
use production_library_manag.Session.{
  M, Env, reservation_row, pending_rows, expired_rows, lock, query, query_one, modify, ◌>>◌,
}

unfoldable pub get_by_id_for_update : Env → ℕ → M (Option Reservation)
get_by_id_for_update env i = do lock env (reservation_row i); query (λ d. find i d.reservations)

unfoldable pub get_active_by_member_id_count : ℕ → Db → ℕ
get_active_by_member_id_count member d =
    count (λ r. r.member_id == member && is_active_reservation r.status) d.reservations

unfoldable pub get_active_by_member_and_book : ℕ → ℕ → M (Option Reservation)
get_active_by_member_and_book member book = query_one λ d.
    select (λ r. r.member_id == member && r.book_id == book && is_active_reservation r.status)
      d.reservations

-- The row with the least `reserved_at`; of several the first in the table.
abbrev pub earliest : Reservation → List Reservation → Reservation
earliest r [] = r
earliest r (x ∷ xs) = earliest (if ltb x.reserved_at r.reserved_at then x else r) xs

unfoldable pub oldest : List Reservation → Option Reservation
oldest [] = none
oldest (r ∷ rs) = some (earliest r rs)

abbrev pub is_pending_for : ℕ → Reservation → Bool
is_pending_for book r = r.book_id == book && is_pending r.status

unfoldable pub get_fifo_pending_by_book_id : Env → ℕ → M (Option Reservation)
unfolding oldest
get_fifo_pending_by_book_id env book = do
  lock env (pending_rows book)
  query (λ d. oldest (select (is_pending_for book) d.reservations))

unfoldable pub compute_queue_position : ℕ → ℕ → Db → ℕ
compute_queue_position book reserved_at d =
    count (λ r. is_pending_for book r && ltb r.reserved_at reserved_at) d.reservations + 1

-- A NULL `expires_at` is before nothing.
abbrev pub is_expired_hold : ℕ → Reservation → Bool
is_expired_hold now r = is_hold r.status && elim r.expires_at [ none ↦ false | some t ↦ ltb t now ]

unfoldable pub get_expired_holds : Env → M (List Reservation)
get_expired_holds env = do
  lock env expired_rows
  query (λ d. select (is_expired_hold env.now) d.reservations)

-- `order_by(reserved_at.asc())`, as a stable insertion sort.
abbrev insert_oldest : Reservation → List Reservation → List Reservation
insert_oldest r [] = r ∷ []
insert_oldest r (x ∷ xs) =
    if leb r.reserved_at x.reserved_at then r ∷ x ∷ xs else x ∷ insert_oldest r xs

unfoldable pub oldest_first : List Reservation → List Reservation
oldest_first [] = []
oldest_first (r ∷ rs) = insert_oldest r (oldest_first rs)

unfoldable pub get_active_reservations_by_member : ℕ → Db → List Reservation
unfolding oldest_first
get_active_reservations_by_member member d =
    oldest_first
      (select (λ r. r.member_id == member && is_active_reservation r.status) d.reservations)

abbrev pub save : Reservation → Db → Db
save r d = record d { reservations = put r d.reservations }

unfoldable pub update : Reservation → M (Unit {0})
update r = modify (save r)

abbrev pub added : Reservation → Db → Db
added r d = record d { reservations = insert r d.reservations }

unfoldable pub create : Reservation → M (Unit {0})
create r = modify (added r)
