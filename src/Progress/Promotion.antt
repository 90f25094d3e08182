-- ===== src/Progress/Promotion.antt =====
-- `promote_next_reservation` always finds a place for the copy in hand.
use production_library_manag.Prelude.{
  ℕ, ◌+◌, ◌≡◌, ◌≤◌, refl, sym, subst, Option, none, some, true, false, select, arith,
}
use production_library_manag.Prelude.Rows.{find, key-find, distinct_keys-IsKeyed, IsKeyed}
use production_library_manag.Models.{Book, Reservation, Db, book_key, reservation_key, book_ok}
use production_library_manag.Models.Constraints.{
  all-find, satisfied-books, satisfied-distinct, save_reservation-satisfied, save_book-satisfied,
}
use production_library_manag.Session.{Env, Lock, book_row, pending_rows, flush, ◌>>=◌}
use production_library_manag.Session.Flushed.{Satisfied}
use production_library_manag.Session.Total.{
  Achieves, query-Achieves, modify-Achieves, lock-Achieves, flush-Achieves, observe-Achieves,
  >>=-Achieves, strengthen-Achieves, both-Achieves, transactional-Achieves,
}
use production_library_manag.Repositories.Books
use production_library_manag.Repositories.Reservations
use production_library_manag.Repositories.Selection.{get_by_id-eq-some, oldest-select}
use production_library_manag.Services.Reservations.{
  restore_copy, promote_or_restore, promote_body, promote_next_reservation, held_until,
  count_promotion,
}
use production_library_manag.Inventory.Defs.{IsBalanced, loans, holds, in_hand}
use production_library_manag.Inventory.Promotion.{promote_next_reservation-IsBalanced}

pub Satisfied-IsKeyed : (d : Db) → Satisfied d → IsKeyed d.reservations
Satisfied-IsKeyed d h = distinct_keys-IsKeyed d.reservations (satisfied-distinct d h)

-- A flush of rows that the database accepts, before what is done next.
pub flush-Satisfied : Achieves Satisfied flush (λ _. Satisfied)
flush-Satisfied = flush-Achieves Satisfied (λ d h. h)

-- With a copy of a book in hand, there is room for one more on the shelf.
room_on_shelf :
    (i : ℕ) (d : Db) (b : Book)
    → IsBalanced (some i) d
    → Books.get_by_id i d ≡ some b
    → b.available_copies + 1 ≤ b.total_copies
room_on_shelf i d b bal e =
    let (there, live) = get_by_id-eq-some i d e in
    let counted : b.available_copies + loans i d + holds i d + in_hand (some i) i ≡ b.total_copies =
      (rw there at (bal.counted i)) live in
    ground (arith, counted)

-- The book with one copy more on the shelf.
abbrev pub restored : Book → Book
restored b = record b { available_copies = b.available_copies + 1 }

restored-ok :
    (b : Book)
    → book_ok b ≡ true
    → b.available_copies + 1 ≤ b.total_copies
    → book_ok (restored b) ≡ true
unfolding book_ok
restored-ok b h room = ground arith

restored-Satisfied :
    (i : ℕ) (d : Db) (b : Book)
    → Satisfied d
    → IsBalanced (some i) d
    → Books.get_by_id i d ≡ some b
    → Satisfied (Books.save (restored b) d)
restored-Satisfied i d b sat bal e =
    let there = (get_by_id-eq-some i d e).0 in
    let same = key-find i d.books b there in
    save_book-satisfied d b (restored b) (subst (λ k. find k d.books ≡ some b) (sym same) there)
      refl
      (restored-ok b (all-find book_ok i b d.books (satisfied-books d sat) there)
        (room_on_shelf i d b bal e))
      sat

-- The constraints hold, and every copy is in its place.
abbrev pub Ordered : Db → Type 0
Ordered d = Satisfied d × IsBalanced none d

-- The constraints hold, and a copy of the book is in hand.
abbrev pub Handed : ℕ → Db → Type 0
Handed i d = Satisfied d × IsBalanced (some i) d

pub restore_copy-Achieves :
    (i : ℕ) (o : Option Book)
    → Achieves (λ d. Handed i d × (o ≡ Books.get_by_id i d)) (restore_copy o) (λ _. Satisfied)
unfolding restore_copy Books.update Books.set_attributes
restore_copy-Achieves i none = record { achieved = λ s h. h.0.0 }
restore_copy-Achieves i (some book) =
    >>=-Achieves _ _
      (modify-Achieves _ (Books.save (restored book))
        (λ d h. restored-Satisfied i d book h.0.0 h.0.1 (sym h.1)))
      (λ _. flush-Satisfied)

module _ (env : Env) (free : (l : Lock) → env.conflict l ≡ false) where
  module _ (P : Db → Type 0) (i : ℕ) where
    pub get_book-Achieves :
        Achieves P (Books.get_by_id_for_update env i) (λ o d. P d × (o ≡ Books.get_by_id i d))
    unfolding Books.get_by_id_for_update
    get_book-Achieves =
        >>=-Achieves _ _ (lock-Achieves P env (book_row i) (free (book_row i)))
          (λ _. query-Achieves P (Books.get_by_id i))

    pub get_fifo-Achieves : Achieves P (Reservations.get_fifo_pending_by_book_id env i) (λ o d.
        P d × (o ≡ Reservations.oldest (select (Reservations.is_pending_for i) d.reservations)))
    unfolding Reservations.get_fifo_pending_by_book_id
    get_fifo-Achieves =
        >>=-Achieves _ _ (lock-Achieves P env (pending_rows i) (free (pending_rows i)))
          (λ _. query-Achieves P _)

  pub shelve-Achieves :
      (i : ℕ)
      → Achieves (Handed i) (Books.get_by_id_for_update env i >>= restore_copy) (λ _. Satisfied)
  shelve-Achieves i = >>=-Achieves _ _ (get_book-Achieves _ i) (restore_copy-Achieves i)

  -- Who is first in the queue gets a HOLD that the database accepts.
  pub held-Satisfied :
      (i : ℕ) (d : Db) (r : Reservation)
      → Satisfied d
      → some r ≡ Reservations.oldest (select (Reservations.is_pending_for i) d.reservations)
      → Satisfied (Reservations.save (held_until env r) d)
  held-Satisfied i d r sat e =
      let (there, chosen) =
        oldest-select (Reservations.is_pending_for i) d.reservations r (Satisfied-IsKeyed d sat)
          (sym e) in
      save_reservation-satisfied d r (held_until env r) there sat

  promote_or_restore-Achieves :
      (i : ℕ) (o : Option Reservation)
      → Achieves
          (λ d.
            Handed i d
            × (o ≡ Reservations.oldest (select (Reservations.is_pending_for i) d.reservations)))
          (promote_or_restore env i o)
          (λ _. Satisfied)
  unfolding promote_or_restore Reservations.update
  promote_or_restore-Achieves i none = strengthen-Achieves _ (λ d h. h.0) (shelve-Achieves i)
  promote_or_restore-Achieves i (some r) =
      >>=-Achieves _ _
        (modify-Achieves _ (Reservations.save (held_until env r))
          (λ d h. held-Satisfied i d r h.0.0 h.1))
        (λ _. >>=-Achieves _ _ flush-Satisfied (λ _. observe-Achieves _ count_promotion))

  promoted-Satisfied :
      (i : ℕ) → Achieves (Handed i) (promote_next_reservation env i) (λ _. Satisfied)
  unfolding promote_next_reservation promote_body
  promoted-Satisfied i =
      transactional-Achieves _
        (>>=-Achieves _ _ (get_fifo-Achieves _ i) (promote_or_restore-Achieves i))

  -- A copy in hand is always passed on.
  pub promote_next_reservation-Achieves :
      (i : ℕ) → Achieves (Handed i) (promote_next_reservation env i) (λ _. Ordered)
  promote_next_reservation-Achieves i =
      strengthen-Achieves _ (λ d h. (h, h.1))
        (both-Achieves _ (promoted-Satisfied i) (promote_next_reservation-IsBalanced env i))
