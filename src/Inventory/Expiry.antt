-- ===== src/Inventory/Expiry.antt =====
-- The sweep counts the expired holds and leaves none.
use production_library_manag.Prelude.{
  ℕ, suc, ◌+◌, ◌≡◌, refl, sym, ap, subst, ◌∙◌, Option, none, some, Bool, true, List, [], ◌∷◌, arith,
  count, length, length-select, select, All, All-mono,
}
use production_library_manag.Prelude.Rows.{
  count-put, select-find, select-IsKeyed, absent-All, IsKeyed, put-IsKeyed,
}
use production_library_manag.Enums.{ReservationStatus}
use production_library_manag.Models.{Reservation, Db, reservation_key}
use production_library_manag.Session.{Env, Session, ok, ◌>>=◌}
use production_library_manag.Session.Logic.{
  Ensures, OnOk, reads-Ensures, flush-Reads, observe-Reads, >>-Reads, modify-Ensures, >>=-Ensures,
  strengthen-Ensures, weaken-Ensures, both-Ensures, transactional-Ensures,
}
use production_library_manag.Session.Preserve.{Preserves, preserves}
use production_library_manag.Repositories.Books
use production_library_manag.Repositories.Reservations
use production_library_manag.Repositories.Selection.{oldest-select, get_fifo-Ensures}
use production_library_manag.Services.Reservations.{
  restore_copy, promote_or_restore, promote_body, promote_next_reservation, held_until,
  count_promotion, closed_as, expire_hold, expire_holds, process_expired_holds_body,
  process_expired_holds,
}
use production_library_manag.Inventory.Defs.{IsBalanced}
use production_library_manag.Inventory.Sweep.{
  Held, Round, Swept, expire_hold-Ensures, expired-Held, get_expired_holds-Ensures,
}
use production_library_manag.Limits.Untouched

module _ (env : Env) where
  abbrev lapsed : Reservation → Bool
  lapsed = Reservations.is_expired_hold env.now

  -- So many holds are expired.
  abbrev pub Left : ℕ → Db → Type 0
  Left n d = count lapsed d.reservations ≡ n

  module _ (n : ℕ) where
    promoted-Left :
        (i : ℕ) (d : Db) (r : Reservation)
        → Left n d
        → IsKeyed d.reservations
        → some r ≡ Reservations.oldest (select (Reservations.is_pending_for i) d.reservations)
        → Left n (Reservations.save (held_until env r) d)
    promoted-Left i d r h k e =
        let (there, chosen) =
          oldest-select (Reservations.is_pending_for i) d.reservations r k (sym e) in
        ground (arith, chosen, h, count-put lapsed (held_until env r) r d.reservations there)

    shelved-Left : (i : ℕ) → Preserves (Left n) (Books.get_by_id_for_update env i >>= restore_copy)
    shelved-Left i =
        let restored = Untouched.restore_copy-Preserves (Left n) (λ b d h. h) in
        search (preserves, Untouched.get_book-Preserves, restored)

    promote_or_restore-Left :
        (i : ℕ) (o : Option Reservation)
        → Ensures
            (λ d.
              (Left n d × IsKeyed d.reservations)
              × (o ≡ Reservations.oldest (select (Reservations.is_pending_for i) d.reservations)))
            (promote_or_restore env i o)
            (λ _. Left n)
    unfolding promote_or_restore Reservations.update
    promote_or_restore-Left i none = strengthen-Ensures _ (λ d h. h.0.0) ((shelved-Left i).ensured)
    promote_or_restore-Left i (some r) =
        >>=-Ensures _ _
          (modify-Ensures _ (Reservations.save (held_until env r))
            (λ d h. promoted-Left i d r h.0.0 h.0.1 h.1))
          (λ _. reads-Ensures _ _ (>>-Reads _ _ flush-Reads (observe-Reads count_promotion)))

    promote_next_reservation-Left :
        (i : ℕ)
        → Ensures
            (λ d. Left n d × IsKeyed d.reservations)
            (promote_next_reservation env i)
            (λ _. Left n)
    unfolding promote_next_reservation promote_body
    promote_next_reservation-Left i =
        transactional-Ensures _
          (>>=-Ensures _ _ (get_fifo-Ensures _ env i) (promote_or_restore-Left i))

    module _ (rest : List Reservation) (res : Reservation) (expired : lapsed res ≡ true) where
      save_expired-Left :
          Ensures
            (λ d. Round env rest res d × Left (suc n) d)
            (Reservations.update (closed_as ReservationStatus.expired res))
            (λ _ d. Left n d × IsKeyed d.reservations)
      unfolding Reservations.update
      save_expired-Left =
          let closed : Reservation = closed_as ReservationStatus.expired res in
          modify-Ensures _ (Reservations.save closed) λ d h. (
            ground (arith, h.1, expired, count-put lapsed closed res d.reservations h.0.1.0),
            put-IsKeyed closed d.reservations h.0.0.keyed,
          )

      expire_hold-Left :
          Ensures (λ d. Round env rest res d × Left (suc n) d) (expire_hold env res) (λ _. Left n)
      unfolding expire_hold
      expire_hold-Left = >>=-Ensures _ _ save_expired-Left λ _.
          >>=-Ensures _ _ (reads-Ensures _ _ flush-Reads)
            λ _. promote_next_reservation-Left res.book_id

      expire_hold-both :
          Ensures
            (λ d. Round env rest res d × Left (suc n) d)
            (expire_hold env res)
            (λ _ d. (IsBalanced none d × Held rest d) × Left n d)
      expire_hold-both =
          strengthen-Ensures _ (λ d h. (h.0, h))
            (both-Ensures _ (expire_hold-Ensures env rest res) expire_hold-Left)

  expire_holds-Left :
      (rest : List Reservation) (k : ℕ)
      → IsKeyed rest
      → All (λ r. lapsed r ≡ true) rest
      → Ensures
          (λ d. (IsBalanced none d × Held rest d) × Left (length rest) d)
          (expire_holds env rest k)
          (λ m d. (m ≡ k + length rest) × Left 0 d)
  unfolding expire_holds
  expire_holds-Left [] k keyed a = record { on_ok = λ s h. (omega arith, h.1) }
  expire_holds-Left (res ∷ rest) k keyed a =
      >>=-Ensures _ _
        (strengthen-Ensures _
          (λ d h. ((h.0.0, h.0.1.0, h.0.1.1, absent-All res.id rest keyed.0), h.1))
          (expire_hold-both (length rest) rest res a.0))
        λ _.
          weaken-Ensures _ (expire_holds-Left rest (k + 1) keyed.1 a.1)
            (λ m d h. (omega (arith, h.0), h.1))

  expire_all :
      (n : ℕ) (rows : List Reservation)
      → Ensures
          (λ d. Swept env rows d × Left n d)
          (expire_holds env rows 0)
          (λ m d. (m ≡ n) × Left 0 d)
  expire_all n rows = record {
    on_ok = λ s h.
        let table : List Reservation = s.db.reservations in
        let keyed : IsKeyed rows = rw h.0.1 (select-IsKeyed lapsed table h.0.0.keyed) in
        let all_lapsed : All (λ r. lapsed r ≡ true) rows =
          rw h.0.1
            (All-mono (select lapsed table) (λ r e. e.1) (select-find lapsed table h.0.0.keyed)) in
        let size : length rows ≡ n = ap length h.0.1 ∙ length-select lapsed table ∙ h.1 in
        (weaken-Ensures _ (expire_holds-Left rows 0 keyed all_lapsed)
            (λ m d e. (omega (arith, e.0, size), e.1))).on_ok
          s ((h.0.0, rw h.0.1 (expired-Held env s.db h.0.0)), h.1 ∙ sym size);
  }

  pub process_expired_holds-Left :
      (n : ℕ)
      → Ensures
          (λ d. IsBalanced none d × Left n d)
          (process_expired_holds env)
          (λ m d. (m ≡ n) × Left 0 d)
  unfolding process_expired_holds process_expired_holds_body
  process_expired_holds-Left n = transactional-Ensures _ (
      >>=-Ensures _ _
        (both-Ensures _ (get_expired_holds-Ensures env)
          ((Untouched.get_expired_holds-Preserves (Left n) env).ensured))
        (expire_all n))

  -- When every copy is accounted for, a sweep that ends normally answers the number of holds that
  -- had expired, and leaves none.
  pub process_expired_holds-clears :
      (s s' : Session) (m : ℕ)
      → IsBalanced none s.db
      → process_expired_holds env s ≡ (ok m, s')
      → (m ≡ count (Reservations.is_expired_hold env.now) s.db.reservations)
        × (count (Reservations.is_expired_hold env.now) s'.db.reservations ≡ 0)
  process_expired_holds-clears s s' m b e =
      let n : ℕ = count lapsed s.db.reservations in
      subst (λ x. OnOk (λ m d. (m ≡ n) × Left 0 d) x) e
        ((process_expired_holds-Left n).on_ok s (b, refl))
