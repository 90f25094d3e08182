-- ===== src/Services/Reservations/Fifo.antt =====
-- Who is promoted, and what that does to the queue.
use production_library_manag.Prelude.{
  ℕ, ◌+◌, ◌≡◌, ◌≤◌, ◌<◌, refl, subst, Option, some, Bool, true, false, ◌&&◌, List, [], ◌∷◌, arith,
  count, select, ltb, All, Bool-cases, inl, inr,
}
use production_library_manag.Prelude.Rows.{count-put, IsKeyed}
use production_library_manag.Models.{Reservation, Db, reservation_key, satisfies_constraints}
use production_library_manag.Session.{Env, Lock, Session, ok, transactional}
use production_library_manag.Repositories.Reservations
use production_library_manag.Repositories.Selection.{oldest-select}
use production_library_manag.Services.Reservations.{
  held_until, promote_or_restore, promote_body, promote_next_reservation,
}

-- No row is older than the earliest one.
earliest-le :
    (r : Reservation) (rows : List Reservation)
    → ((Reservations.earliest r rows).reserved_at ≤ r.reserved_at)
      × All (λ x. (Reservations.earliest r rows).reserved_at ≤ x.reserved_at) rows
earliest-le r [] = (omega arith, tt)
earliest-le r (x ∷ rows) = elim (Bool-cases (ltb x.reserved_at r.reserved_at)) [
  | inl older ↦
      let same : Reservations.earliest x rows ≡ Reservations.earliest r (x ∷ rows) = simp older in
      let h = earliest-le x rows in subst (λ e. Least e) same (ground (arith, h.0), (h.0, h.1))
  | inr newer ↦
      let same : Reservations.earliest r rows ≡ Reservations.earliest r (x ∷ rows) = simp newer in
      let h = earliest-le r rows in subst (λ e. Least e) same (h.0, (ground (arith, h.0), h.1))
]
  where
    Least : Reservation → Type 0
    Least e = (e.reserved_at ≤ r.reserved_at) × All (λ x. e.reserved_at ≤ x.reserved_at) (x ∷ rows)

pub oldest-le :
    (rows : List Reservation) (r : Reservation)
    → Reservations.oldest rows ≡ some r
    → All (λ x. r.reserved_at ≤ x.reserved_at) rows
unfolding Reservations.oldest
oldest-le [] r e = cc
oldest-le (x ∷ rows) r e =
    let h = earliest-le x rows in
    let same : Reservations.earliest x rows ≡ r = ground arith in rw same at h

none_older :
    (p : Reservation → Bool) (rows : List Reservation) (t : ℕ)
    → All (λ x. t ≤ x.reserved_at) (select p rows)
    → count (λ x. p x && ltb x.reserved_at t) rows ≡ 0
none_older p [] t h = refl
none_older p (x ∷ rows) t h = elim (Bool-cases (p x)) [
  | inl hit ↦ ground (arith, none_older p rows t ((rw hit at h).1), (rw hit at h).0)
  | inr miss ↦ ground (arith, none_older p rows t (rw miss at h))
]

module _ (env : Env) (i : ℕ) where
  abbrev next_in_line : Db → Option Reservation
  next_in_line d = Reservations.oldest (select (Reservations.is_pending_for i) d.reservations)

  oldest-first :
      (d : Db) (r : Reservation)
      → next_in_line d ≡ some r
      → Reservations.compute_queue_position i r.reserved_at d ≡ 1
  unfolding Reservations.compute_queue_position
  oldest-first d r e = omega (
    arith,
    none_older (Reservations.is_pending_for i) d.reservations r.reserved_at
        (oldest-le (select (Reservations.is_pending_for i) d.reservations) r e),
  )

  moves_up :
      (d : Db) (r : Reservation) (t : ℕ)
      → IsKeyed d.reservations
      → next_in_line d ≡ some r
      → r.reserved_at < t
      → Reservations.compute_queue_position i t (Reservations.save (held_until env r) d) + 1
        ≡ Reservations.compute_queue_position i t d
  unfolding Reservations.compute_queue_position
  moves_up d r t k e later =
      let (there, chosen) = oldest-select (Reservations.is_pending_for i) d.reservations r k e in
      let waiting : Reservation → Bool =
        λ x. Reservations.is_pending_for i x && ltb x.reserved_at t in
      ground (arith, chosen, count-put waiting (held_until env r) r d.reservations there)

  promoted :
      (s : Session) (r : Reservation)
      → ((l : Lock) → env.conflict l ≡ false)
      → s.depth ≡ 0
      → next_in_line s.db ≡ some r
      → satisfies_constraints (Reservations.save (held_until env r) s.db) ≡ true
      → ((promote_next_reservation env i s).0 ≡ ok tt)
        × ((promote_next_reservation env i s).1.committed
            ≡ Reservations.save (held_until env r) s.db)
  unfolding promote_next_reservation promote_body promote_or_restore transactional
      Reservations.update Reservations.get_fifo_pending_by_book_id
  promoted s r free outside e accepted = simp (outside, free, e, accepted) (refl, refl)

  -- Without a lock conflict, if the database accepts the row, a promotion gives the HOLD to the
  -- reservation that is first in the book's queue, commits that and nothing else, and everybody
  -- who asked later moves up by one place.
  pub promote_next_reservation-fifo :
      (s : Session) (r : Reservation) (t : ℕ)
      → ((l : Lock) → env.conflict l ≡ false)
      → s.depth ≡ 0
      → IsKeyed s.db.reservations
      → next_in_line s.db ≡ some r
      → satisfies_constraints (Reservations.save (held_until env r) s.db) ≡ true
      → r.reserved_at < t
      → ((promote_next_reservation env i s).0 ≡ ok tt)
        × ((promote_next_reservation env i s).1.committed
            ≡ Reservations.save (held_until env r) s.db)
        × (Reservations.compute_queue_position i r.reserved_at s.db ≡ 1)
        × (Reservations.compute_queue_position i t (promote_next_reservation env i s).1.committed
              + 1
            ≡ Reservations.compute_queue_position i t s.db)
  promote_next_reservation-fifo s r t free outside k e accepted later =
      let done = promoted s r free outside e accepted in
      (done.0, done.1, oldest-first s.db r e, rw done.1 (moves_up s.db r t k e later))
