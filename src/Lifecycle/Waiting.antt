-- ===== src/Lifecycle/Waiting.antt =====
-- The life of a reservation as a step relation, apart from the code.
use production_library_manag.Prelude.{ℕ, ◌≡◌, refl, ◌⊎◌, inl, inr, none, some, true, false, arith}
use production_library_manag.Lifecycle.Tables.{Steps, here, later}
use production_library_manag.Enums.{ReservationStatus, is_pending, is_hold, is_active_reservation}
use production_library_manag.Models.{Reservation, reservation_key}

-- What identifies a reservation, and never changes: its place in the queue among it.
pub record IsSameRequest (r r' : Reservation) : Type 0 where
  pub same_id : r'.id ≡ r.id
  pub same_member : r'.member_id ≡ r.member_id
  pub same_book : r'.book_id ≡ r.book_id
  pub same_place : r'.reserved_at ≡ r.reserved_at

-- PENDING becomes HOLD, with a time until which the copy is kept; PENDING and HOLD become
-- CANCELLED; HOLD becomes COMPLETED or EXPIRED.
pub data ReservationStep : Reservation → Reservation → Type 0 where
  promotion :
      {r r' : Reservation} {until : ℕ}
      → IsSameRequest r r'
      → r.status ≡ ReservationStatus.pending
      → r'.status ≡ ReservationStatus.hold
      → r'.expires_at ≡ some until
      → ReservationStep r r'
  cancellation :
      {r r' : Reservation}
      → IsSameRequest r r'
      → (r.status ≡ ReservationStatus.pending) ⊎ (r.status ≡ ReservationStatus.hold)
      → r'.status ≡ ReservationStatus.cancelled
      → r'.expires_at ≡ none
      → ReservationStep r r'
  completion :
      {r r' : Reservation}
      → IsSameRequest r r'
      → r.status ≡ ReservationStatus.hold
      → r'.status ≡ ReservationStatus.completed
      → r'.expires_at ≡ none
      → ReservationStep r r'
  expiry :
      {r r' : Reservation}
      → IsSameRequest r r'
      → r.status ≡ ReservationStatus.hold
      → r'.status ≡ ReservationStatus.expired
      → r'.expires_at ≡ none
      → ReservationStep r r'

abbrev pub ReservationPath : Reservation → Reservation → Type 0
ReservationPath = Steps ReservationStep

pub pending_status : (s : ReservationStatus) → is_pending s ≡ true → s ≡ ReservationStatus.pending
pending_status ReservationStatus.pending e = refl
pending_status ReservationStatus.hold e = cc
pending_status ReservationStatus.completed e = cc
pending_status ReservationStatus.cancelled e = cc
pending_status ReservationStatus.expired e = cc

pub hold_status : (s : ReservationStatus) → is_hold s ≡ true → s ≡ ReservationStatus.hold
hold_status ReservationStatus.pending e = cc
hold_status ReservationStatus.hold e = refl
hold_status ReservationStatus.completed e = cc
hold_status ReservationStatus.cancelled e = cc
hold_status ReservationStatus.expired e = cc

pub active_status :
    (s : ReservationStatus)
    → is_active_reservation s ≡ true
    → (s ≡ ReservationStatus.pending) ⊎ (s ≡ ReservationStatus.hold)
active_status ReservationStatus.pending e = inl refl
active_status ReservationStatus.hold e = inr refl
active_status ReservationStatus.completed e = cc
active_status ReservationStatus.cancelled e = cc
active_status ReservationStatus.expired e = cc

closed_step : (r r' : Reservation) → ReservationStep r r' → is_active_reservation r.status ≡ true
closed_step r r' (promotion _ e _ _) = ground (arith, e)
closed_step r r' (cancellation _ (inl e) _ _) = ground (arith, e)
closed_step r r' (cancellation _ (inr e) _ _) = ground (arith, e)
closed_step r r' (completion _ e _ _) = ground (arith, e)
closed_step r r' (expiry _ e _ _) = ground (arith, e)

-- A reservation that is closed stays as it is.
pub ReservationPath-closed :
    (r r' : Reservation) → ReservationPath r r' → is_active_reservation r.status ≡ false → r' ≡ r
ReservationPath-closed r r' here h = refl
ReservationPath-closed r r' (later {s} p step) h =
    let same : s ≡ r = ReservationPath-closed r s p h in
    let active : is_active_reservation s.status ≡ true = closed_step s r' step in
    ground (arith, same, active, h)
