-- ===== src/Progress/Queue.antt =====
-- Nobody waits for ever: each copy that comes back brings a waiting member nearer to a HOLD.
use production_library_manag.Prelude.{
  ℕ, suc, ◌≡◌, ◌≤◌, ◌<◌, ◌⊎◌, refl, sym, Option, none, some, Bool, true, ◌&&◌, ◌==◌, List, [], ◌∷◌,
  leb, arith, inl, inr, Bool-cases, count, select, All,
}
use production_library_manag.Prelude.Rows.{find, find-put, count-put, IsKeyed}
use production_library_manag.Enums.{is_pending, is_hold}
use production_library_manag.Models.{Reservation, Db, reservation_key}
use production_library_manag.Session.{Env}
use production_library_manag.Session.Logic.{
  Ensures, reads-Ensures, flush-Reads, observe-Reads, >>-Reads, modify-Ensures, >>=-Ensures,
  transactional-Ensures,
}
use production_library_manag.Repositories.Reservations
use production_library_manag.Repositories.Selection.{oldest-select, get_fifo-Ensures}
use production_library_manag.Services.Reservations.{
  promote_or_restore, promote_body, promote_next_reservation, held_until, count_promotion,
}
use production_library_manag.Services.Reservations.Fifo.{oldest-le}

-- A reservation that waits for the book, and was not made after `t`.
abbrev pub ahead : ℕ → ℕ → Reservation → Bool
ahead i t x = Reservations.is_pending_for i x && leb x.reserved_at t

-- Somebody is first in a queue that is not empty.
someone_waits :
    (i t : ℕ) (rows : List Reservation)
    → Reservations.oldest (select (Reservations.is_pending_for i) rows) ≡ none
    → count (ahead i t) rows ≡ 0
unfolding Reservations.oldest
someone_waits i t [] e = refl
someone_waits i t (x ∷ rows) e = ground (arith, someone_waits i t rows)

-- Who asked first did not ask after any of those who wait.
first_le :
    (i t a : ℕ) (rows : List Reservation)
    → All (λ x. a ≤ x.reserved_at) (select (Reservations.is_pending_for i) rows)
    → 0 < count (ahead i t) rows
    → a ≤ t
first_le i t a [] h some_ahead = absurd (omega arith)
first_le i t a (x ∷ rows) h some_ahead = elim (Bool-cases (Reservations.is_pending_for i x)) [
  | inl hit ↦
      let h' = rw hit at h in
      elim (Bool-cases (leb x.reserved_at t)) [
        | inl early ↦ ground (arith, h'.0)
        | inr late ↦ first_le i t a rows h'.1 (ground (arith, hit, late))
      ]
  | inr miss ↦ first_le i t a rows (rw miss at h) (ground (arith, miss))
]

count-find :
    (p : Reservation → Bool) (i : ℕ) (x : Reservation) (rows : List Reservation)
    → find i rows ≡ some x
    → p x ≡ true
    → 0 < count p rows
count-find p i x [] e hit = cc
count-find p i x (y ∷ rows) e hit = ground (arith, count-find p i x rows)

module _ (r : Reservation) (waits : is_pending r.status ≡ true) where
  -- The reservation is as it was, or has its HOLD.
  abbrev pub Served : Db → Type 0
  Served d =
      (x : Reservation) × (find r.id d.reservations ≡ some x)
      × ((x ≡ r) ⊎ (is_hold x.status ≡ true))

  -- So many wait that did not ask after it.
  abbrev pub Queued : ℕ → Db → Type 0
  Queued n d = (count (ahead r.book_id r.reserved_at) d.reservations ≡ n) × Served d

  -- With nobody left in front, it has its HOLD.
  pub Queued-zero :
      (d : Db)
      → Queued 0 d
      → (x : Reservation) × (find r.id d.reservations ≡ some x) × (is_hold x.status ≡ true)
  Queued-zero d (e, (x, there, inr held)) = (x, there, held)
  Queued-zero d (e, (x, there, inl same)) =
      let ahead_of_itself : ahead r.book_id r.reserved_at x ≡ true = ground (arith, same) in
      absurd (
        omega (
          arith,
          e,
          count-find (ahead r.book_id r.reserved_at) r.id x d.reservations there ahead_of_itself,
        ))

  module _ (env : Env) (n : ℕ) where
    abbrev First : Option Reservation → Db → Type 0
    First o d =
        (Queued (suc n) d × IsKeyed d.reservations)
        × (o ≡ Reservations.oldest (select (Reservations.is_pending_for r.book_id) d.reservations))

    held-Served :
        (d : Db) (y : Reservation)
        → find y.id d.reservations ≡ some y
        → Served d
        → Served (Reservations.save (held_until env y) d)
    held-Served d y there (x, e, status) =
        let changed = find-put (held_until env y) y d.reservations r.id there in
        elim (Bool-cases (y.id == r.id)) [
          | inl hit ↦ (held_until env y, ground (arith, changed, hit), inr refl)
          | inr miss ↦ (x, ground (arith, changed, miss, e), status)
        ]

    held-Queued :
        (d : Db) (y : Reservation)
        → First (some y) d
        → Queued n (Reservations.save (held_until env y) d)
    held-Queued d y ((q, k), e) =
        let p = Reservations.is_pending_for r.book_id in
        let (there, chosen) = oldest-select p d.reservations y k (sym e) in
        let early : y.reserved_at ≤ r.reserved_at =
          first_le r.book_id r.reserved_at y.reserved_at d.reservations
            (oldest-le (select p d.reservations) y (sym e)) (omega (arith, q.0)) in
        (
          ground (
            arith,
            q.0,
            early,
            chosen,
            count-put (ahead r.book_id r.reserved_at) (held_until env y) y d.reservations there,
          ),
          held-Served d y there q.1,
        )

    promote_or_restore-Queued :
        (o : Option Reservation)
        → Ensures (First o) (promote_or_restore env r.book_id o) (λ _. Queued n)
    unfolding promote_or_restore Reservations.update
    promote_or_restore-Queued none = record {
      on_ok = λ s h.
          let empty = someone_waits r.book_id r.reserved_at s.db.reservations (sym h.1) in
          absurd (omega (arith, h.0.0.0, empty));
    }
    promote_or_restore-Queued (some y) =
        >>=-Ensures _ _
          (modify-Ensures _ (Reservations.save (held_until env y)) (λ d h. held-Queued d y h))
          (λ _. reads-Ensures _ _ (>>-Reads _ _ flush-Reads (observe-Reads count_promotion)))

    -- A promotion brings it one place nearer.
    pub promote_next_reservation-Queued :
        Ensures
          (λ d. Queued (suc n) d × IsKeyed d.reservations)
          (promote_next_reservation env r.book_id)
          (λ _. Queued n)
    unfolding promote_next_reservation promote_body
    promote_next_reservation-Queued =
        transactional-Ensures _
          (>>=-Ensures _ _ (get_fifo-Ensures _ env r.book_id) promote_or_restore-Queued)
