-- ===== src/Inventory/Promotion.antt =====
-- `promote_next_reservation` finds a place for the copy in hand: the oldest waiting reservation,
-- or the shelf.
use production_library_manag.Prelude.{
  ℕ, ◌+◌, ◌≡◌, refl, sym, subst, Option, none, some, select, arith, inl, inr, Option-cases,
}
use production_library_manag.Prelude.Rows.{find, key-find}
use production_library_manag.Models.{Book, Reservation, Db, book_key, reservation_key}
use production_library_manag.Session.{Env, ◌>>=◌}
use production_library_manag.Session.Logic.{
  Ensures, reads-Ensures, modify-Ensures, >>=-Ensures, transactional-Ensures, strengthen-Ensures,
  flush-Reads, observe-Reads, >>-Reads,
}
use production_library_manag.Repositories.Books
use production_library_manag.Repositories.Reservations
use production_library_manag.Repositories.Selection.{
  get_by_id-eq-some, get_by_id-eq-none, oldest-select, get_book-Ensures, get_fifo-Ensures,
}
use production_library_manag.Services.Reservations.{
  restore_copy, promote_or_restore, promote_body, promote_next_reservation, held_until,
  count_promotion,
}
use production_library_manag.Inventory.Defs.{IsBalanced}
use production_library_manag.Inventory.Rows.{hold-IsBalanced, save_book-IsBalanced}

-- A copy of a book that is not found any more is not accounted for.
pub drop-IsBalanced :
    (i : ℕ) (d : Db) → IsBalanced (some i) d → Books.get_by_id i d ≡ none → IsBalanced none d
drop-IsBalanced i d b e = record {
  counted = λ j. elim (Option-cases (find j d.books)) [
    | inl absent ↦ rw absent (rw absent at (b.counted j))
    | inr (old, there) ↦
        rw there λ live.
          ground (arith, get_by_id-eq-none i d old e, there, (rw there at (b.counted j)) live)
  ];
  keyed = b.keyed;
}

restore-IsBalanced :
    (i : ℕ) (d : Db) (book : Book)
    → IsBalanced (some i) d
    → Books.get_by_id i d ≡ some book
    → IsBalanced none (Books.save (record book { available_copies = book.available_copies + 1 }) d)
restore-IsBalanced i d book b e =
    let (there, live) = get_by_id-eq-some i d e in
    let same = key-find i d.books book there in
    save_book-IsBalanced d (some i) none book
      (record book { available_copies = book.available_copies + 1 }) b
      (subst (λ k. find k d.books ≡ some book) (sym same) there) (λ _. (live, ground (arith, same)))
      (λ j other. ground (arith, same))

pub restore_copy-IsBalanced :
    (i : ℕ) (o : Option Book)
    → Ensures
        (λ d. IsBalanced (some i) d × (o ≡ Books.get_by_id i d))
        (restore_copy o)
        (λ _. IsBalanced none)
unfolding restore_copy Books.update Books.set_attributes
restore_copy-IsBalanced i none = record { on_ok = λ s h. drop-IsBalanced i s.db h.0 (sym h.1) }
restore_copy-IsBalanced i (some book) =
    >>=-Ensures _ _ (modify-Ensures _ _ (λ d h. restore-IsBalanced i d book h.0 (sym h.1)))
      (λ _. reads-Ensures _ _ flush-Reads)

-- `if book: …` after the lookup, as both services have it.
pub shelve-IsBalanced :
    (env : Env) (i : ℕ)
    → Ensures
        (IsBalanced (some i))
        (Books.get_by_id_for_update env i >>= restore_copy)
        (λ _. IsBalanced none)
shelve-IsBalanced env i = >>=-Ensures _ _ (get_book-Ensures _ env i) (restore_copy-IsBalanced i)

promotion-IsBalanced :
    (env : Env) (i : ℕ) (d : Db) (r : Reservation)
    → IsBalanced (some i) d
    → some r ≡ Reservations.oldest (select (Reservations.is_pending_for i) d.reservations)
    → IsBalanced none (Reservations.save (held_until env r) d)
promotion-IsBalanced env i d r b e =
    let (there, chosen) =
      oldest-select (Reservations.is_pending_for i) d.reservations r b.keyed (sym e) in
    let same : i ≡ r.book_id = ground (arith, chosen) in
    hold-IsBalanced d r (held_until env r) there refl (subst (λ k. IsBalanced (some k) d) same b)
      (ground (arith, chosen)) refl

promote_or_restore-IsBalanced :
    (env : Env) (i : ℕ) (o : Option Reservation)
    → Ensures
        (λ d.
          IsBalanced (some i) d
          × (o ≡ Reservations.oldest (select (Reservations.is_pending_for i) d.reservations)))
        (promote_or_restore env i o)
        (λ _. IsBalanced none)
unfolding promote_or_restore Reservations.update
promote_or_restore-IsBalanced env i none =
    strengthen-Ensures _ (λ d h. h.0) (shelve-IsBalanced env i)
promote_or_restore-IsBalanced env i (some r) =
    >>=-Ensures _ _ (modify-Ensures _ _ (λ d h. promotion-IsBalanced env i d r h.0 h.1))
      (λ _. reads-Ensures _ _ (>>-Reads _ _ flush-Reads (observe-Reads count_promotion)))

-- After a promotion no copy is in hand.
pub promote_next_reservation-IsBalanced :
    (env : Env) (i : ℕ)
    → Ensures (IsBalanced (some i)) (promote_next_reservation env i) (λ _. IsBalanced none)
unfolding promote_next_reservation promote_body
promote_next_reservation-IsBalanced env i =
    transactional-Ensures _
      (>>=-Ensures _ _ (get_fifo-Ensures _ env i) (promote_or_restore-IsBalanced env i))
