-- ===== src/Progress/Sweep.antt =====
-- The sweep of expired holds goes through.
use production_library_manag.Prelude.{ℕ, ◌+◌, ◌≡◌, refl, none, true, false, List, [], ◌∷◌, count}
use production_library_manag.Prelude.Rows.{absent-All, IsKeyed, select-IsKeyed}
use production_library_manag.Enums.{ReservationStatus}
use production_library_manag.Models.{Reservation, reservation_key, satisfies_constraints}
use production_library_manag.Models.Constraints.{save_reservation-satisfied}
use production_library_manag.Session.{Env, Lock, Session, ok, expired_rows}
use production_library_manag.Session.Total.{
  Achieves, query-Achieves, modify-Achieves, lock-Achieves, flush-Achieves, >>=-Achieves,
  strengthen-Achieves, weaken-Achieves, both-Achieves, transactional-Achieves,
  transactional-committed,
}
use production_library_manag.Repositories.Reservations
use production_library_manag.Services.Reservations.{
  closed_as, expire_hold, expire_holds, process_expired_holds_body, process_expired_holds,
}
use production_library_manag.Services.Atomicity
use production_library_manag.Inventory.Defs.{IsBalanced}
use production_library_manag.Inventory.Rows.{release-IsBalanced}
use production_library_manag.Inventory.Sweep.{Held, Round, Swept, expire_hold-Ensures, expired-Held}
use production_library_manag.Inventory.Sweep.{process_expired_holds-IsBalanced}
use production_library_manag.Inventory.Expiry.{process_expired_holds-Left}
use production_library_manag.Session.Flushed.{Satisfied}
use production_library_manag.Progress.Promotion.{Handed, Ordered, promote_next_reservation-Achieves}

module _ (env : Env) (free : (l : Lock) → env.conflict l ≡ false) where
  module _ (rest : List Reservation) (res : Reservation) where
    save_expired-Achieves :
        Achieves
          (λ d. Satisfied d × Round env rest res d)
          (Reservations.update (closed_as ReservationStatus.expired res))
          (λ _. Handed res.book_id)
    unfolding Reservations.update
    save_expired-Achieves =
        let closed : Reservation = closed_as ReservationStatus.expired res in
        modify-Achieves _ (Reservations.save closed) λ d h. (
          save_reservation-satisfied d res closed h.1.1.0 h.0,
          release-IsBalanced d res closed h.1.1.0 refl h.1.0 h.1.1.1 refl,
        )

    expire_hold-Ordered :
        Achieves (λ d. Satisfied d × Round env rest res d) (expire_hold env res) (λ _. Ordered)
    unfolding expire_hold
    expire_hold-Ordered = >>=-Achieves _ _ save_expired-Achieves λ _.
        >>=-Achieves _ _ (flush-Achieves _ (λ d h. h.0))
          λ _. promote_next_reservation-Achieves env free res.book_id

    -- A round goes through, and leaves the other expired holds as they were read.
    expire_hold-Achieves :
        Achieves
          (λ d. Satisfied d × Round env rest res d)
          (expire_hold env res)
          (λ _ d. Satisfied d × (IsBalanced none d × Held rest d))
    expire_hold-Achieves =
        weaken-Achieves _
          (strengthen-Achieves _ (λ d h. (h, h.1))
            (both-Achieves _ expire_hold-Ordered (expire_hold-Ensures env rest res)))
          (λ _ d h. (h.0.0, h.1))

  expire_holds-Achieves :
      (rest : List Reservation) (n : ℕ)
      → IsKeyed rest
      → Achieves
          (λ d. Satisfied d × (IsBalanced none d × Held rest d))
          (expire_holds env rest n)
          (λ _. Satisfied)
  unfolding expire_holds
  expire_holds-Achieves [] n k = record { achieved = λ s h. h.0 }
  expire_holds-Achieves (res ∷ rest) n k =
      >>=-Achieves _ _
        (strengthen-Achieves _ (λ d h. (h.0, (h.1.0, h.1.1.0, h.1.1.1, absent-All res.id rest k.0)))
          (expire_hold-Achieves rest res))
        (λ _. expire_holds-Achieves rest (n + 1) k.1)

  expire_all :
      (rows : List Reservation)
      → Achieves (λ d. Satisfied d × Swept env rows d) (expire_holds env rows 0) (λ _. Satisfied)
  expire_all rows = record {
    achieved = λ s h.
        let keyed : IsKeyed rows =
          rw h.1.1
            (select-IsKeyed (Reservations.is_expired_hold env.now) s.db.reservations h.1.0.keyed) in
        (expire_holds-Achieves rows 0 keyed).achieved s
          (h.0, (h.1.0, rw h.1.1 (expired-Held env s.db h.1.0)));
  }

  get_expired_holds-Achieves :
      Achieves Ordered
        (Reservations.get_expired_holds env)
        (λ rows d. Satisfied d × Swept env rows d)
  unfolding Reservations.get_expired_holds
  get_expired_holds-Achieves =
      >>=-Achieves _ _ (lock-Achieves Ordered env expired_rows (free expired_rows))
        (λ _. weaken-Achieves _ (query-Achieves Ordered _) (λ rows d h. (h.0.0, (h.0.1, h.1))))

  process_expired_holds-Achieves : Achieves Ordered (process_expired_holds env) (λ _. Satisfied)
  unfolding process_expired_holds process_expired_holds_body
  process_expired_holds-Achieves =
      transactional-Achieves _ (>>=-Achieves _ _ get_expired_holds-Achieves expire_all)

  -- From a committed state in order, when no lock is refused, the sweep always ends normally: it
  -- answers the number of holds that had expired, leaves none, and commits a state in order.
  pub process_expired_holds-succeeds :
      (s : Session)
      → s.depth ≡ 0
      → satisfies_constraints s.db ≡ true
      → IsBalanced none s.db
      → ((process_expired_holds env s).0
          ≡ ok (count (Reservations.is_expired_hold env.now) s.db.reservations))
        × (count
              (Reservations.is_expired_hold env.now)
              (process_expired_holds env s).1.committed.reservations
            ≡ 0)
        × (satisfies_constraints (process_expired_holds env s).1.committed ≡ true)
        × IsBalanced none (process_expired_holds env s).1.committed
  unfolding process_expired_holds
  process_expired_holds-succeeds s outside sat bal =
      let n : ℕ = count (Reservations.is_expired_hold env.now) s.db.reservations in
      let (m, e, done) =
        transactional-committed (process_expired_holds_body env) s
          (Atomicity.process_expired_holds_body-Frames env)
          (both-Achieves _
            (both-Achieves _ process_expired_holds-Achieves (process_expired_holds-Left env n))
            (process_expired_holds-IsBalanced env))
          outside (((sat, bal), (bal, refl)), bal) in
      (rw (← done.0.1.0) e, done.0.1.1, done.0.0, done.1)
