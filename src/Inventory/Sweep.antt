-- ===== src/Inventory/Sweep.antt =====
-- The sweep of expired holds keeps the accounts: while one hold is released and its copy passed
-- on, the holds that are still to be released stay as they were read.
use production_library_manag.Prelude.{
  ℕ, ◌+◌, ◌≡◌, ◌≢◌, refl, sym, Option, none, some, true, List, [], ◌∷◌, arith, select, All,
  All-mono, All-and,
}
use production_library_manag.Prelude.Rows.{
  find, find-put, select-find, select-IsKeyed, absent-All, IsKeyed,
}
use production_library_manag.Enums.{ReservationStatus, is_hold}
use production_library_manag.Models.{Book, Reservation, Db, reservation_key}
use production_library_manag.Session.{Env, expired_rows}
use production_library_manag.Session.Logic.{
  Ensures, reads-Ensures, lock-Reads, flush-Reads, observe-Reads, pure-Reads, >>-Reads,
  query-Ensures, modify-Ensures, >>=-Ensures, strengthen-Ensures, weaken-Ensures, both-Ensures,
  transactional-Ensures,
}
use production_library_manag.Repositories.Books
use production_library_manag.Repositories.Reservations
use production_library_manag.Repositories.Selection.{
  oldest-select, get_book-Ensures, get_fifo-Ensures,
}
use production_library_manag.Services.Reservations.{
  restore_copy, promote_or_restore, promote_body, promote_next_reservation, held_until,
  count_promotion, closed_as, expire_hold, expire_holds, process_expired_holds_body,
  process_expired_holds,
}
use production_library_manag.Inventory.Defs.{IsBalanced}
use production_library_manag.Inventory.Rows.{release-IsBalanced}
use production_library_manag.Inventory.Promotion.{promote_next_reservation-IsBalanced}

-- The row of the table, and in HOLD.
abbrev pub IsHeld : Db → Reservation → Type 0
IsHeld d r = (find r.id d.reservations ≡ some r) × (is_hold r.status ≡ true)

-- Rows that are read, and still as they were.
abbrev pub Held : List Reservation → Db → Type 0
Held rest d = All (IsHeld d) rest

module _ (env : Env) (rest : List Reservation) where
  -- Writing another row leaves them alone.
  pub save-Held :
      (d : Db) (old r : Reservation)
      → find r.id d.reservations ≡ some old
      → All (λ x. x.id ≢ r.id) rest
      → Held rest d
      → Held rest (Reservations.save r d)
  save-Held d old r e apart h =
      All-mono rest (λ x p. ground (arith, p, find-put r old d.reservations x.id e))
        (All-and _ _ rest apart h)

  promoted-Held :
      (i : ℕ) (d : Db) (r : Reservation)
      → Held rest d
      → IsKeyed d.reservations
      → some r ≡ Reservations.oldest (select (Reservations.is_pending_for i) d.reservations)
      → Held rest (Reservations.save (held_until env r) d)
  promoted-Held i d r h k e =
      let (there, chosen) =
        oldest-select (Reservations.is_pending_for i) d.reservations r k (sym e) in
      save-Held d r (held_until env r) there
        (All-mono rest (λ x p same. ground (arith, there, chosen, p)) h) h

  restore_copy-Held : (o : Option Book) → Ensures (Held rest) (restore_copy o) (λ _. Held rest)
  unfolding restore_copy Books.update Books.set_attributes
  restore_copy-Held none = reads-Ensures _ _ (pure-Reads tt)
  restore_copy-Held (some book) =
      >>=-Ensures _ _
        (modify-Ensures _
          (Books.save (record book { available_copies = book.available_copies + 1 })) (λ d h. h))
        (λ _. reads-Ensures _ _ flush-Reads)

  abbrev Queued : ℕ → Option Reservation → Db → Type 0
  Queued i o d =
      (Held rest d × IsKeyed d.reservations)
      × (o ≡ Reservations.oldest (select (Reservations.is_pending_for i) d.reservations))

  promote_or_restore-Held :
      (i : ℕ) (o : Option Reservation)
      → Ensures (Queued i o) (promote_or_restore env i o) (λ _. Held rest)
  unfolding promote_or_restore Reservations.update
  promote_or_restore-Held i none =
      strengthen-Ensures _ (λ d h. h.0.0)
        (>>=-Ensures _ _ (weaken-Ensures _ (get_book-Ensures (Held rest) env i) (λ _ d h. h.0))
          restore_copy-Held)
  promote_or_restore-Held i (some r) =
      >>=-Ensures _ _
        (modify-Ensures _ (Reservations.save (held_until env r))
          (λ d h. promoted-Held i d r h.0.0 h.0.1 h.1))
        (λ _. reads-Ensures _ _ (>>-Reads _ _ flush-Reads (observe-Reads count_promotion)))

  pub promote_next_reservation-Held :
      (i : ℕ)
      → Ensures
          (λ d. Held rest d × IsKeyed d.reservations)
          (promote_next_reservation env i)
          (λ _. Held rest)
  unfolding promote_next_reservation promote_body
  promote_next_reservation-Held i =
      transactional-Ensures _
        (>>=-Ensures _ _ (get_fifo-Ensures _ env i) (promote_or_restore-Held i))

  -- One round, with the round's own hold first.
  abbrev pub Round : Reservation → Db → Type 0
  Round res d = IsBalanced none d × IsHeld d res × Held rest d × All (λ x. x.id ≢ res.id) rest

  save_expired-Ensures :
      (res : Reservation)
      → Ensures
          (Round res)
          (Reservations.update (closed_as ReservationStatus.expired res))
          (λ _ d. IsBalanced (some res.book_id) d × Held rest d)
  unfolding Reservations.update
  save_expired-Ensures res =
      let closed : Reservation = closed_as ReservationStatus.expired res in
      modify-Ensures _ (Reservations.save closed) λ d h. (
        release-IsBalanced d res closed h.1.0 refl h.0 h.1.1 refl,
        save-Held d res closed h.1.0 h.3 h.2,
      )

  pub expire_hold-Ensures :
      (res : Reservation)
      → Ensures (Round res) (expire_hold env res) (λ _ d. IsBalanced none d × Held rest d)
  unfolding expire_hold
  expire_hold-Ensures res = >>=-Ensures _ _ (save_expired-Ensures res) λ _.
      >>=-Ensures _ _ (reads-Ensures _ _ flush-Reads) λ _.
        strengthen-Ensures _ (λ d h. (h.0, (h.1, h.0.keyed)))
          (both-Ensures _ (promote_next_reservation-IsBalanced env res.book_id)
            (promote_next_reservation-Held res.book_id))

module _ (env : Env) where
  expire_holds-IsBalanced :
      (rest : List Reservation) (n : ℕ)
      → IsKeyed rest
      → Ensures
          (λ d. IsBalanced none d × Held rest d)
          (expire_holds env rest n)
          (λ _. IsBalanced none)
  unfolding expire_holds
  expire_holds-IsBalanced [] n k = record { on_ok = λ s h. h.0 }
  expire_holds-IsBalanced (res ∷ rest) n k =
      >>=-Ensures _ _
        (strengthen-Ensures _ (λ d h. (h.0, h.1.0, h.1.1, absent-All res.id rest k.0))
          (expire_hold-Ensures env rest res))
        (λ _. expire_holds-IsBalanced rest (n + 1) k.1)

  pub expired-Held :
      (d : Db)
      → IsBalanced none d
      → Held (select (Reservations.is_expired_hold env.now) d.reservations) d
  expired-Held d b =
      All-mono _ (λ x p. (p.0, ground (arith, p.1)))
        (select-find (Reservations.is_expired_hold env.now) d.reservations b.keyed)

  abbrev pub Swept : List Reservation → Db → Type 0
  Swept rows d =
      IsBalanced none d × (rows ≡ select (Reservations.is_expired_hold env.now) d.reservations)

  pub get_expired_holds-Ensures :
      Ensures (IsBalanced none) (Reservations.get_expired_holds env) Swept
  unfolding Reservations.get_expired_holds
  get_expired_holds-Ensures =
      >>=-Ensures _ _ (reads-Ensures _ _ (lock-Reads env expired_rows)) (λ _. query-Ensures _ _)

  expire_all :
      (rows : List Reservation)
      → Ensures (Swept rows) (expire_holds env rows 0) (λ _. IsBalanced none)
  expire_all rows = record {
    on_ok = λ s h.
        let keyed : IsKeyed rows =
          rw h.1
            (select-IsKeyed (Reservations.is_expired_hold env.now) s.db.reservations h.0.keyed) in
        (expire_holds-IsBalanced rows 0 keyed).on_ok s (h.0, rw h.1 (expired-Held s.db h.0));
  }

  -- The sweep keeps every copy accounted for.
  pub process_expired_holds-IsBalanced :
      Ensures (IsBalanced none) (process_expired_holds env) (λ _. IsBalanced none)
  unfolding process_expired_holds process_expired_holds_body
  process_expired_holds-IsBalanced =
      transactional-Ensures _ (>>=-Ensures _ _ get_expired_holds-Ensures expire_all)
