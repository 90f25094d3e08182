-- ===== src/Enums.antt =====
-- The enumerations of app/domain/enums.py, the tests on them that the services and queries make,
-- and the business constants of app/core/constants.py and app/core/config.py.
use production_library_manag.Prelude.{ℕ, ◌*◌, Bool, true, false}

pub data UserRole : Type 0 where
  admin librarian member : UserRole

pub data UserStatus : Type 0 where
  active inactive suspended : UserStatus

pub data MembershipStatus : Type 0 where
  active inactive suspended : MembershipStatus

pub data BorrowStatus : Type 0 where
  borrowed returned renewed overdue : BorrowStatus

pub data BookCondition : Type 0 where
  new good fair poor : BookCondition

pub data ReservationStatus : Type 0 where
  pending hold completed cancelled expired : ReservationStatus

-- `status != UserStatus.ACTIVE` is the negation of this.
abbrev pub is_active_user : UserStatus → Bool
is_active_user UserStatus.active = true
is_active_user _ = false

abbrev pub is_active_member : MembershipStatus → Bool
is_active_member MembershipStatus.active = true
is_active_member _ = false

abbrev pub is_suspended : MembershipStatus → Bool
is_suspended MembershipStatus.suspended = true
is_suspended _ = false

abbrev pub is_inactive : MembershipStatus → Bool
is_inactive MembershipStatus.inactive = true
is_inactive _ = false

abbrev pub is_returned : BorrowStatus → Bool
is_returned BorrowStatus.returned = true
is_returned _ = false

-- `status.in_([BORROWED, RENEWED])`
abbrev pub is_open : BorrowStatus → Bool
is_open BorrowStatus.borrowed = true
is_open BorrowStatus.renewed = true
is_open _ = false

-- `status in [BORROWED, RENEWED, OVERDUE]`
abbrev pub is_out : BorrowStatus → Bool
is_out BorrowStatus.returned = false
is_out _ = true

abbrev pub same_status : BorrowStatus → BorrowStatus → Bool
same_status BorrowStatus.borrowed BorrowStatus.borrowed = true
same_status BorrowStatus.returned BorrowStatus.returned = true
same_status BorrowStatus.renewed BorrowStatus.renewed = true
same_status BorrowStatus.overdue BorrowStatus.overdue = true
same_status _ _ = false

abbrev pub is_overdue : BorrowStatus → Bool
is_overdue BorrowStatus.overdue = true
is_overdue _ = false

abbrev pub is_expired : ReservationStatus → Bool
is_expired ReservationStatus.expired = true
is_expired _ = false

abbrev pub is_pending : ReservationStatus → Bool
is_pending ReservationStatus.pending = true
is_pending _ = false

abbrev pub is_hold : ReservationStatus → Bool
is_hold ReservationStatus.hold = true
is_hold _ = false

-- `status.in_([PENDING, HOLD])`
abbrev pub is_active_reservation : ReservationStatus → Bool
is_active_reservation ReservationStatus.pending = true
is_active_reservation ReservationStatus.hold = true
is_active_reservation _ = false

-- Instants and durations are whole microseconds, as in `datetime`.
abbrev pub second : ℕ
second = 1000000

abbrev pub hour : ℕ
hour = 3600 * second

abbrev pub day : ℕ
day = 24 * hour

abbrev pub max_renewals : ℕ
max_renewals = 2

abbrev pub max_active_reservations : ℕ
max_active_reservations = 3

abbrev pub hold_duration_hours : ℕ
hold_duration_hours = 48

abbrev pub refresh_token_days : ℕ
refresh_token_days = 7
