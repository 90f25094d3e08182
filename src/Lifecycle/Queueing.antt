-- ===== src/Lifecycle/Queueing.antt =====
-- The services move a reservation along its path only, and remove none.
use production_library_manag.Prelude.{
  ℕ, ◌+◌, ◌≡◌, ◌≢◌, refl, sym, Option, none, some, Bool, true, false, not, List, [], ◌∷◌, All,
  select, ◌==◌, arith,
}
use production_library_manag.Prelude.Rows.{find, key-find, IsKeyed, put-IsKeyed, absent-All}
use production_library_manag.Enums.{ReservationStatus, is_hold, is_active_reservation}
use production_library_manag.Errors.{Error}
use production_library_manag.Models.{Book, Reservation, Db, reservation_key}
use production_library_manag.Session.{Env, ◌>>=◌}
use production_library_manag.Session.Logic.{
  Ensures, reads-Ensures, found-Ensures, raise_if-Ensures, flush-Reads, pure-Reads, raise_if-Reads,
  observe-Reads, >>-Reads, modify-Ensures, >>=-Ensures, strengthen-Ensures, both-Ensures,
  transactional-Ensures,
}
use production_library_manag.Session.Preserve.{Preserves, preserves, pure-Preserves}
use production_library_manag.Repositories.Books
use production_library_manag.Repositories.Reservations
use production_library_manag.Repositories.Selection.{
  oldest-select, get_fifo-Ensures, get_reservation-Ensures,
}
use production_library_manag.Services.Reservations.{
  closed_as, held_until, count_promotion, restore_copy, promote_or_restore, promote_body,
  promote_next_reservation, promote_if, cancel_reservation_body, cancel_reservation, expire_hold,
  expire_holds,
}
use production_library_manag.Inventory.Sweep.{
  IsHeld, Held, save-Held, promote_next_reservation-Held,
}
use production_library_manag.Limits.Untouched
use production_library_manag.Lifecycle.Tables.{IsFollowed, put-IsFollowed}
use production_library_manag.Lifecycle.Waiting.{
  IsSameRequest, ReservationStep, promotion, cancellation, expiry, pending_status, hold_status,
  active_status,
}

-- No reservation is lost, each is further on its path, and their ids are distinct.
abbrev pub Queued : Db → Db → Type 0
Queued start d =
    IsKeyed d.reservations × IsFollowed ReservationStep start.reservations d.reservations

pub same_request :
    (r r' : Reservation)
    → r'.id ≡ r.id
    → r'.member_id ≡ r.member_id
    → r'.book_id ≡ r.book_id
    → r'.reserved_at ≡ r.reserved_at
    → IsSameRequest r r'
same_request r r' a b c d = record { same_id = a; same_member = b; same_book = c; same_place = d }

module _ (start : Db) where
  abbrev K : Db → Type 0
  K = Queued start

  pub step-Queued :
      (r r' : Reservation) (d : Db)
      → K d
      → find r'.id d.reservations ≡ some r
      → ReservationStep r r'
      → K (Reservations.save r' d)
  step-Queued r r' d h e step = (
    put-IsKeyed r' d.reservations h.0,
    put-IsFollowed ReservationStep start.reservations d.reservations h.1 r r' e step,
  )

  promoted-Queued :
      (env : Env) (i : ℕ) (d : Db) (r : Reservation)
      → K d
      → some r ≡ Reservations.oldest (select (Reservations.is_pending_for i) d.reservations)
      → K (Reservations.save (held_until env r) d)
  promoted-Queued env i d r h e =
      let (there, chosen) =
        oldest-select (Reservations.is_pending_for i) d.reservations r h.0 (sym e) in
      step-Queued r (held_until env r) d h there (
        promotion (same_request r (held_until env r) refl refl refl refl)
          (pending_status r.status (ground (arith, chosen))) refl refl)

  pub restore_copy-Queued : (o : Option Book) → Preserves K (restore_copy o)
  restore_copy-Queued = Untouched.restore_copy-Preserves K (λ b d h. h)

  module _ (env : Env) where
    promote_or_restore-Queued :
        (i : ℕ) (o : Option Reservation)
        → Ensures
            (λ d.
              K d
              × (o ≡ Reservations.oldest (select (Reservations.is_pending_for i) d.reservations)))
            (promote_or_restore env i o)
            (λ _. K)
    unfolding promote_or_restore Reservations.update
    promote_or_restore-Queued i none =
        let shelved : Preserves K (Books.get_by_id_for_update env i >>= restore_copy) =
          search (preserves, Untouched.get_book-Preserves, restore_copy-Queued) in
        strengthen-Ensures _ (λ d h. h.0) shelved.ensured
    promote_or_restore-Queued i (some r) =
        >>=-Ensures _ _
          (modify-Ensures _ (Reservations.save (held_until env r))
            (λ d h. promoted-Queued env i d r h.0 h.1))
          λ _. reads-Ensures _ _ (>>-Reads _ _ flush-Reads (observe-Reads count_promotion))

    pub promote-Queued : (i : ℕ) → Preserves K (promote_next_reservation env i)
    unfolding promote_next_reservation promote_body
    promote-Queued i = record {
      ensured =
          transactional-Ensures _
            (>>=-Ensures _ _ (get_fifo-Ensures K env i) (promote_or_restore-Queued i));
    }

    promote_if-Queued : (b : Bool) (i : ℕ) → Preserves K (promote_if b env i)
    promote_if-Queued true i = promote-Queued i
    promote_if-Queued false i = pure-Preserves K tt

    -- A row that was looked up by its id.
    abbrev Loaded : ℕ → Reservation → Db → Type 0
    Loaded i r d = K d × (find i d.reservations ≡ some r)

    save_cancelled-Queued :
        (i : ℕ) (r : Reservation)
        → Ensures
            (λ d. Loaded i r d × (not (is_active_reservation r.status) ≡ false))
            (Reservations.update (closed_as ReservationStatus.cancelled r))
            (λ _. K)
    unfolding Reservations.update
    save_cancelled-Queued i r =
        let closed : Reservation = closed_as ReservationStatus.cancelled r in
        modify-Ensures _ (Reservations.save closed) λ d h.
          step-Queued r closed d h.0.0 (ground (arith, h.0.1, key-find i d.reservations r h.0.1)) (
            cancellation (same_request r closed refl refl refl refl)
              (active_status r.status (ground (arith, h.1))) refl refl)

    pub cancel_reservation-Queued : (i m : ℕ) → Ensures K (cancel_reservation env i m) (λ _. K)
    unfolding cancel_reservation cancel_reservation_body
    cancel_reservation-Queued i m = transactional-Ensures _ (
        >>=-Ensures _ _ (get_reservation-Ensures K env i) λ found.
          >>=-Ensures _ _
            (found-Ensures (λ d. find i d.reservations) found Error.reservation_not_found)
            λ res.
              >>=-Ensures _ _
                (reads-Ensures (Loaded i res) _
                  (raise_if-Reads (not (res.member_id == m)) Error.reservation_not_found))
                λ _.
                  >>=-Ensures _ _
                    (raise_if-Ensures (Loaded i res) (not (is_active_reservation res.status))
                      Error.value_error)
                    λ _. >>=-Ensures _ _ (save_cancelled-Queued i res) λ _.
                      >>=-Ensures _ _ (reads-Ensures K _ flush-Reads) λ _.
                        >>=-Ensures _ _
                          ((promote_if-Queued (is_hold res.status) res.book_id).ensured)
                          λ _.
                            reads-Ensures K _
                              (pure-Reads (closed_as ReservationStatus.cancelled res)))

    module _ (rest : List Reservation) (res : Reservation) where
      abbrev Round : Db → Type 0
      Round d = K d × IsHeld d res × Held rest d × All (λ x. x.id ≢ res.id) rest

      save_expired-Queued :
          Ensures Round
            (Reservations.update (closed_as ReservationStatus.expired res))
            (λ _ d. K d × Held rest d)
      unfolding Reservations.update
      save_expired-Queued =
          let closed : Reservation = closed_as ReservationStatus.expired res in
          modify-Ensures _ (Reservations.save closed) λ d h. (
            step-Queued res closed d h.0 h.1.0 (
                expiry (same_request res closed refl refl refl refl) (hold_status res.status h.1.1)
                  refl refl),
            save-Held env rest d res closed h.1.0 h.3 h.2,
          )

      expire_hold-Queued : Ensures Round (expire_hold env res) (λ _ d. K d × Held rest d)
      unfolding expire_hold
      expire_hold-Queued = >>=-Ensures _ _ save_expired-Queued λ _.
          >>=-Ensures _ _ (reads-Ensures _ _ flush-Reads) λ _.
            strengthen-Ensures _ (λ d h. (h.0, (h.1, h.0.0)))
              (both-Ensures _ ((promote-Queued res.book_id).ensured)
                (promote_next_reservation-Held env rest res.book_id))

    pub expire_holds-Queued :
        (rest : List Reservation) (n : ℕ)
        → IsKeyed rest
        → Ensures (λ d. K d × Held rest d) (expire_holds env rest n) (λ _. K)
    unfolding expire_holds
    expire_holds-Queued [] n k = record { on_ok = λ s h. h.0 }
    expire_holds-Queued (res ∷ rest) n k =
        >>=-Ensures _ _
          (strengthen-Ensures _ (λ d h. (h.0, h.1.0, h.1.1, absent-All res.id rest k.0))
            (expire_hold-Queued rest res))
          (λ _. expire_holds-Queued rest (n + 1) k.1)
