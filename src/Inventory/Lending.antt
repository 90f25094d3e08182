-- ===== src/Inventory/Lending.antt =====
-- `borrow_book` keeps the accounts: the copy comes off the shelf, or out of the member's own hold.
use production_library_manag.Prelude.{
  ℕ, ◌-◌, ◌≡◌, refl, sym, subst, Option, none, some, Bool, true, false, select, arith, leb,
  if◌then◌else◌,
}
use production_library_manag.Prelude.Rows.{find, key-find, find-put}
use production_library_manag.Enums.{ReservationStatus}
use production_library_manag.Errors.{Error}
use production_library_manag.Models.{Book, Member, Reservation, Db, book_key, reservation_key}
use production_library_manag.Session.{Env, ok, scalar_one_or_none, hold_rows}
use production_library_manag.Session.Logic.{
  Ensures, Reads, reads, reads-Ensures, raise_if-Ensures, raise_if-Reads, or_raise-Reads,
  lock-Reads, flush-Reads, observe-Reads, pure-Reads, >>-Reads, modify-Ensures, found-Ensures,
  query_one-Ensures, >>=-Ensures, transactional-Ensures, flush_pure-Ensures,
  catch_operational-Ensures,
}
use production_library_manag.Repositories.Books
use production_library_manag.Repositories.Members
use production_library_manag.Repositories.Borrows
use production_library_manag.Repositories.Reservations
use production_library_manag.Repositories.Selection.{
  get_by_id-eq-some, one-select, get_book-Ensures,
}
use production_library_manag.Services.Reservations.{closed_as}
use production_library_manag.Services.Borrows.{
  Config, validate_member_for_borrow, find_active_hold, complete_hold, take_copy, lend, is_hold_for,
  new_loan, count_borrowing, borrow_book_body, borrow_book,
}
use production_library_manag.Inventory.Defs.{IsBalanced}
use production_library_manag.Inventory.Rows.{
  release-IsBalanced, save_book-IsBalanced, loan-IsBalanced,
}

pub get_member-Reads : (env : Env) (i : ℕ) → Reads (Members.get_by_id_for_update env i)
unfolding Members.get_by_id_for_update
get_member-Reads env i = search reads

validate-Reads :
    (env : Env) (cfg : Config) (m : Member) → Reads (validate_member_for_borrow env cfg m)
unfolding validate_member_for_borrow
validate-Reads env cfg m = search reads depth 12

module _ (env : Env) (cfg : Config) (member_id i : ℕ) where
  -- The book is in the table, and its copy is accounted for or in hand.
  abbrev Loaded : Book → Option ℕ → Db → Type 0
  Loaded book hand d = IsBalanced hand d × (Books.get_by_id i d ≡ some book)

  -- What is in hand once the hold has been looked at.
  abbrev after_hold : Bool → Option ℕ
  after_hold completed = if completed then some i else none

  pub find_active_hold-Ensures :
      (P : Db → Type 0)
      → Ensures P
          (find_active_hold env i)
          (λ o d. P d × (scalar_one_or_none (select (is_hold_for i) d.reservations) ≡ ok o))
  unfolding find_active_hold
  find_active_hold-Ensures P =
      >>=-Ensures _ _ (reads-Ensures P _ (lock-Reads env (hold_rows i)))
        (λ _. query_one-Ensures P _)

  completed-IsBalanced :
      (d : Db) (book : Book) (r : Reservation)
      → Loaded book none d
      → scalar_one_or_none (select (is_hold_for i) d.reservations) ≡ ok (some r)
      → Loaded book (some i) (Reservations.save (closed_as ReservationStatus.completed r) d)
  unfolding Books.get_by_id
  completed-IsBalanced d book r h e =
      let (there, chosen) = one-select (is_hold_for i) d.reservations r h.0.keyed e in
      let same : r.book_id ≡ i = ground (arith, chosen) in
      let moved =
        release-IsBalanced d r (closed_as ReservationStatus.completed r) there refl h.0
          (ground (arith, chosen)) refl in
      (
        subst
            (λ k.
              IsBalanced (some k) (Reservations.save (closed_as ReservationStatus.completed r) d))
            same moved,
        h.1,
      )

  -- What is known when the hold has been looked up.
  abbrev WithHold : Book → Option Reservation → Db → Type 0
  WithHold book o d =
      Loaded book none d × (scalar_one_or_none (select (is_hold_for i) d.reservations) ≡ ok o)

  save_completed-IsBalanced :
      (book : Book) (r : Reservation)
      → Ensures
          (WithHold book (some r))
          (Reservations.update (closed_as ReservationStatus.completed r))
          (λ _. Loaded book (some i))
  unfolding Reservations.update
  save_completed-IsBalanced book r =
      modify-Ensures _ _ (λ d h. completed-IsBalanced d book r h.0 h.1)

  complete_hold-IsBalanced :
      (book : Book) (o : Option Reservation)
      → Ensures
          (WithHold book o)
          (complete_hold member_id o)
          (λ completed. Loaded book (after_hold completed))
  unfolding complete_hold
  complete_hold-IsBalanced book none = record { on_ok = λ s h. h.0 }
  complete_hold-IsBalanced book (some r) =
      >>=-Ensures _ _ (reads-Ensures _ _ (raise_if-Reads _ _)) λ _.
        >>=-Ensures _ _ (save_completed-IsBalanced book r)
          λ _. flush_pure-Ensures (λ completed. Loaded book (after_hold completed)) true

  -- With a copy in hand there is still a row for the book.
  abbrev CopyInHand : Db → Type 0
  CopyInHand d = IsBalanced (some i) d × ((b : Book) × (find i d.books ≡ some b))

  taken-IsBalanced :
      (d : Db) (book : Book)
      → Loaded book none d
      → leb book.available_copies 0 ≡ false
      → CopyInHand (Books.save (record book { available_copies = book.available_copies - 1 }) d)
  taken-IsBalanced d book h some_left =
      let (there, live) = get_by_id-eq-some i d h.1 in
      let same : book.id ≡ i = key-find i d.books book there in
      let own = subst (λ k. find k d.books ≡ some book) (sym same) there in
      let taken : Book = record book { available_copies = book.available_copies - 1 } in
      (
        save_book-IsBalanced d none (some i) book taken h.0 own
            (λ _. (live, ground (arith, same, some_left))) (λ j other. ground (arith, same)),
        (taken, ground (arith, find-put taken book d.books i own, same)),
      )

  take_copy-IsBalanced :
      (book : Book) (completed : Bool)
      → Ensures (Loaded book (after_hold completed)) (take_copy completed book) (λ _. CopyInHand)
  unfolding take_copy Books.update Books.set_attributes
  take_copy-IsBalanced book true = record {
    on_ok = λ s h. (h.0, (book, (get_by_id-eq-some i s.db h.1).0));
  }
  take_copy-IsBalanced book false =
      >>=-Ensures _ _ (raise_if-Ensures _ _ _)
        (λ _. modify-Ensures _ _ (λ d h. taken-IsBalanced d book h.0 h.1))

  create_loan-IsBalanced :
      Ensures CopyInHand (Borrows.create (new_loan env cfg member_id i)) (λ _. IsBalanced none)
  unfolding Borrows.create
  create_loan-IsBalanced =
      modify-Ensures _ _
        λ d h. loan-IsBalanced d h.1.0 (new_loan env cfg member_id i) h.0 h.1.1 refl

  -- What is done once the book is loaded.
  lend-IsBalanced :
      (book : Book)
      → Ensures (Loaded book none) (lend env cfg member_id i book) (λ _. IsBalanced none)
  unfolding lend
  lend-IsBalanced book = >>=-Ensures _ _ (find_active_hold-Ensures (Loaded book none)) λ hold.
      >>=-Ensures _ _ (complete_hold-IsBalanced book hold) λ completed.
        >>=-Ensures _ _ (take_copy-IsBalanced book completed) λ _.
          >>=-Ensures _ _ create_loan-IsBalanced λ _. reads-Ensures _ _ (
            >>-Reads _ _ flush-Reads (
              >>-Reads _ _ (observe-Reads count_borrowing)
                (pure-Reads (new_loan env cfg member_id i))))

  borrow_book_body-IsBalanced :
      Ensures (IsBalanced none) (borrow_book_body env cfg member_id i) (λ _. IsBalanced none)
  unfolding borrow_book_body
  borrow_book_body-IsBalanced =
      >>=-Ensures _ _ (reads-Ensures _ _ (get_member-Reads env member_id)) λ found_member.
        >>=-Ensures _ _ (reads-Ensures _ _ (or_raise-Reads found_member Error.value_error))
          λ member. >>=-Ensures _ _ (reads-Ensures _ _ (validate-Reads env cfg member)) λ _.
            >>=-Ensures _ _ (get_book-Ensures _ env i) λ found_book.
              >>=-Ensures _ _ (found-Ensures (Books.get_by_id i) found_book Error.book_not_found)
                λ book.
                  >>=-Ensures _ _ (reads-Ensures _ _ (raise_if-Reads _ _))
                    (λ _. lend-IsBalanced book)

  -- A checkout keeps every copy accounted for.
  pub borrow_book-IsBalanced :
      Ensures (IsBalanced none) (borrow_book env cfg member_id i) (λ _. IsBalanced none)
  unfolding borrow_book
  borrow_book-IsBalanced =
      transactional-Ensures _ (catch_operational-Ensures _ borrow_book_body-IsBalanced)
