-- ===== src/Services/Borrows/Outcomes.antt =====
-- When a loan is made, and what it leaves.
use production_library_manag.Prelude.{
  ℕ, ◌-◌, ◌≡◌, ◌<◌, refl, ap, Option, none, some, true, false, List, [], ◌∷◌, ◌++◌, ◌==◌, arith,
  length, select, ltb, leb, not, if◌then◌else◌,
}
use production_library_manag.Enums.{ReservationStatus, is_active_member}
use production_library_manag.Errors.{Error}
use production_library_manag.Models.{
  Book, Member, BorrowRecord, Reservation, Db, satisfies_constraints,
}
use production_library_manag.Session.{
  Env, Lock, member_row, book_row, hold_rows, Session, ok, err, begin, on_conflict, transactional,
}
use production_library_manag.Repositories.Books
use production_library_manag.Repositories.Members
use production_library_manag.Repositories.Borrows
use production_library_manag.Repositories.Reservations
use production_library_manag.Repositories.Selection.{get_by_id-eq-some}
use production_library_manag.Services.Reservations.{closed_as}
use production_library_manag.Services.Borrows.{
  count_borrowing, Config, validate_member_for_borrow, find_active_hold, complete_hold, take_copy,
  lend, new_loan, borrow_book_body, borrow_book, is_hold_for,
}

-- What the checks on the member look at.
pub record MayBorrow (env : Env) (cfg : Config) (member_id : ℕ) (d : Db) : Type 0 where
  pub member : Member
  pub found : Members.get_by_id member_id d ≡ some member
  pub active : is_active_member member.membership_status ≡ true
  pub none_overdue : Borrows.get_overdue_by_member_id_count member.id env.now d ≡ 0
  pub below_limit : length (Borrows.get_active_by_member_id member.id d) < cfg.max_borrow_limit

module _ (env : Env) (cfg : Config) (free : (l : Lock) → env.conflict l ≡ false) where
  validated :
      (s : Session) (member_id : ℕ) (h : MayBorrow env cfg member_id s.db)
      → validate_member_for_borrow env cfg h.member s ≡ (ok tt, s)
  unfolding validate_member_for_borrow
  validated s member_id h =
      let no_overdue : ltb 0 (Borrows.get_overdue_by_member_id_count h.member.id env.now s.db)
          ≡ false =
        ground (arith, h.none_overdue) in
      let below : leb cfg.max_borrow_limit
            (length (Borrows.get_active_by_member_id h.member.id s.db))
          ≡ false =
        ground (arith, h.below_limit) in
      simp (h.active, no_overdue, below)

  module _ (member_id i : ℕ) (book : Book) where
    abbrev loan : BorrowRecord
    loan = new_loan env cfg member_id i

    -- The session once the member and the book are locked.
    abbrev locked : Session → Session
    locked s = record s { locks = (s.locks ++ member_row member_id ∷ []) ++ book_row i ∷ [] }

    -- A member and a book that pass the checks.
    abbrev pub Checked : Db → Type 0
    Checked d = MayBorrow env cfg member_id d × (Books.get_by_id i d ≡ some book)

    checked :
        (s : Session)
        → Checked s.db
        → borrow_book_body env cfg member_id i s ≡ lend env cfg member_id i book (locked s)
    unfolding borrow_book_body Members.get_by_id_for_update Books.get_by_id_for_update
    checked s h =
        let (there, live) = get_by_id-eq-some i s.db h.1 in
        simp (free, h.0.found, validated, h.1, live)

    abbrev pub shelf_loan : Db → Db
    shelf_loan d =
        Borrows.added loan
          (Books.save (record book { available_copies = book.available_copies - 1 }) d)

    lend-shelf :
        (s : Session)
        → select (is_hold_for i) s.db.reservations ≡ []
        → 0 < book.available_copies
        → satisfies_constraints (shelf_loan s.db) ≡ true
        → lend env cfg member_id i book s ≡ (
          ok loan,
          record s {
            db = shelf_loan s.db;
            locks = s.locks ++ hold_rows i ∷ [];
            metrics = count_borrowing s.metrics;
          },
        )
    unfolding lend find_active_hold complete_hold take_copy Books.update Books.set_attributes
        Borrows.create
    lend-shelf s no_hold on_shelf accepted =
        let has_copy : leb book.available_copies 0 ≡ false = ground arith in
        simp (free, no_hold, has_copy, accepted)

    -- Without a lock conflict, a member who passes the checks gets a book that is on the shelf and
    -- kept for nobody, if the database accepts the rows: the loan is answered, and committed with
    -- one copy less on the shelf.
    pub borrow_book-shelf :
        (s : Session)
        → s.depth ≡ 0
        → Checked s.db
        → select (is_hold_for i) s.db.reservations ≡ []
        → 0 < book.available_copies
        → satisfies_constraints (shelf_loan s.db) ≡ true
        → ((borrow_book env cfg member_id i s).0 ≡ ok loan)
          × ((borrow_book env cfg member_id i s).1.committed ≡ shelf_loan s.db)
    unfolding borrow_book transactional
    borrow_book-shelf s outside h no_hold on_shelf accepted =
        let made = lend-shelf (locked (begin s)) no_hold on_shelf accepted in
        simp (outside, checked (begin s) h, made) (refl, refl)

    abbrev pub held_loan : Reservation → Db → Db
    held_loan hold d = Borrows.added loan (
        Reservations.save (record hold { status = ReservationStatus.completed; expires_at = none })
          d)

    lend-held :
        (s : Session) (hold : Reservation)
        → select (is_hold_for i) s.db.reservations ≡ hold ∷ []
        → hold.member_id ≡ member_id
        → satisfies_constraints
            (Reservations.save (closed_as ReservationStatus.completed hold) s.db)
          ≡ true
        → satisfies_constraints (held_loan hold s.db) ≡ true
        → lend env cfg member_id i book s ≡ (
          ok loan,
          record s {
            db = held_loan hold s.db;
            locks = s.locks ++ hold_rows i ∷ [];
            metrics = count_borrowing s.metrics;
          },
        )
    unfolding lend find_active_hold complete_hold take_copy Reservations.update Borrows.create
    lend-held s hold held mine closed accepted =
        let own : not (hold.member_id == member_id) ≡ false = ground arith in
        simp (free, held, own, closed, accepted)

    -- Without a lock conflict, a member who passes the checks gets the copy that a HOLD reservation
    -- keeps for them, also when none is on the shelf and, as no date of the hold is looked at, also
    -- when its window is over and no sweep has closed it yet, if the database accepts the rows: the
    -- reservation is COMPLETED and the shelf is left alone.
    pub borrow_book-held :
        (s : Session) (hold : Reservation)
        → s.depth ≡ 0
        → Checked s.db
        → select (is_hold_for i) s.db.reservations ≡ hold ∷ []
        → hold.member_id ≡ member_id
        → satisfies_constraints
            (Reservations.save (closed_as ReservationStatus.completed hold) s.db)
          ≡ true
        → satisfies_constraints (held_loan hold s.db) ≡ true
        → ((borrow_book env cfg member_id i s).0 ≡ ok loan)
          × ((borrow_book env cfg member_id i s).1.committed ≡ held_loan hold s.db)
    unfolding borrow_book transactional
    borrow_book-held s hold outside h held mine closed accepted =
        let made = lend-held (locked (begin s)) hold held mine closed accepted in
        simp (outside, checked (begin s) h, made) (refl, refl)

    -- The error of a book with these holds, for a member who passes the checks.
    abbrev pub refusal : List Reservation → Option Error
    refusal [] = if ltb 0 book.available_copies then none else some Error.book_unavailable
    refusal (hold ∷ []) =
        if hold.member_id == member_id then none else some Error.reservation_not_held
    refusal (_ ∷ _ ∷ _) = some Error.multiple_results_found

    lend-refused :
        (s : Session) (holds : List Reservation) (e : Error)
        → select (is_hold_for i) s.db.reservations ≡ holds
        → refusal holds ≡ some e
        → lend env cfg member_id i book s
          ≡ (err e, record s { locks = s.locks ++ hold_rows i ∷ [] })
    unfolding lend find_active_hold complete_hold take_copy
    lend-refused s [] e h r =
        let none_left : leb book.available_copies 0 ≡ true = ground arith in
        let reason : e ≡ Error.book_unavailable = ground arith in simp (free, h, none_left, reason)
    lend-refused s (hold ∷ []) e h r =
        let other : not (hold.member_id == member_id) ≡ true = ground arith in
        let reason : e ≡ Error.reservation_not_held = ground arith in simp (free, h, other, reason)
    lend-refused s (x ∷ y ∷ rest) e h r =
        let reason : e ≡ Error.multiple_results_found = ground arith in simp (free, h, reason)

    refusal-on_conflict :
        (holds : List Reservation) (e : Error) → refusal holds ≡ some e → on_conflict e ≡ e
    refusal-on_conflict [] e r =
        let reason : e ≡ Error.book_unavailable = ground arith in simp reason
    refusal-on_conflict (hold ∷ []) e r =
        let reason : e ≡ Error.reservation_not_held = ground arith in simp reason
    refusal-on_conflict (x ∷ y ∷ rest) e r =
        let reason : e ≡ Error.multiple_results_found = ground arith in simp reason

    -- Without a lock conflict, a member who passes the checks is refused a book that has no HOLD
    -- reservation and no copy on the shelf, one that is kept for somebody else, however many
    -- copies are on the shelf, and one that has two HOLD reservations, whoever they are for. The
    -- database is left as it was.
    pub borrow_book-refused :
        (s : Session) (e : Error)
        → s.depth ≡ 0
        → Checked s.db
        → refusal (select (is_hold_for i) s.db.reservations) ≡ some e
        → ((borrow_book env cfg member_id i s).0 ≡ err e)
          × ((borrow_book env cfg member_id i s).1.db ≡ s.db)
    unfolding borrow_book transactional
    borrow_book-refused s e outside h r =
        let refused =
          lend-refused (locked (begin s)) (select (is_hold_for i) s.db.reservations) e refl r in
        simp (outside, checked (begin s) h, refused)
          (ap err (refusal-on_conflict (select (is_hold_for i) s.db.reservations) e r), refl)
