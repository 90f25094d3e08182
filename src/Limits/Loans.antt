-- ===== src/Limits/Loans.antt =====
-- A member never has more open loans than the configured limit.
use production_library_manag.Prelude.{
  ℕ, ◌≡◌, ◌≤◌, ◌<◌, refl, ap, subst, some, Bool, true, false, ◌&&◌, List, ◌==◌, ==_iff, arith,
  count, length, length-select, leb, ltb, not, All, if◌then◌else◌, Bool-cases, inl, inr,
}
use production_library_manag.Prelude.Rows.{
  find, put, insert, key-find, count-put, count-insert, put-All, insert-All,
}
use production_library_manag.Enums.{is_overdue, is_open, is_active_member, is_suspended}
use production_library_manag.Errors.{Error}
use production_library_manag.Models.{Book, Member, BorrowRecord, Db, borrow_key, member_key}
use production_library_manag.Session.{Env, member_row}
use production_library_manag.Session.Logic.{
  OnOk, Ensures, reads-Ensures, lock-Reads, query-Ensures, found-Ensures, raise_if-Ensures,
  raise_if-Reads, or_raise-Reads, query-Reads, modify-Ensures, >>=-Ensures, weaken-Ensures,
  transactional-Ensures, catch_operational-Ensures, flush-Reads, observe-Reads, pure-Reads,
  >>-Reads,
}
use production_library_manag.Repositories.Members
use production_library_manag.Repositories.Borrows
use production_library_manag.Services.Borrows.{
  Config, validate_member_for_borrow, lend, new_loan, count_borrowing, borrow_book_body,
  borrow_book,
}
use production_library_manag.Limits.Untouched

abbrev pub is_open_loan_of : ℕ → BorrowRecord → Bool
is_open_loan_of member r = r.member_id == member && is_open r.status

-- No member has more open loans than the limit, and no row is marked OVERDUE.
pub record LoansWithin (limit : ℕ) (rows : List BorrowRecord) : Type 0 where
  pub within : (member : ℕ) → count (is_open_loan_of member) rows ≤ limit
  pub unmarked : All (λ r. is_overdue r.status ≡ false) rows

-- A change that opens no loan.
pub put-LoansWithin :
    (limit : ℕ) (old r : BorrowRecord) (rows : List BorrowRecord)
    → LoansWithin limit rows
    → find r.id rows ≡ some old
    → r.member_id ≡ old.member_id
    → (is_open r.status ≡ true → is_open old.status ≡ true)
    → is_overdue r.status ≡ false
    → LoansWithin limit (put r rows)
put-LoansWithin limit old r rows h e same opens plain = record {
  within = λ member.
      let shift = count-put (is_open_loan_of member) r old rows e in
      ground (arith, shift, h.within member);
  unmarked = put-All _ r rows h.unmarked plain;
}

pub insert-LoansWithin :
    (limit : ℕ) (r : BorrowRecord) (rows : List BorrowRecord)
    → LoansWithin limit rows
    → count (is_open_loan_of r.member_id) rows < limit
    → is_overdue r.status ≡ false
    → LoansWithin limit (insert r rows)
insert-LoansWithin limit r rows h room plain = record {
  within = λ member. elim (Bool-cases (r.member_id == member)) [
    | inl same ↦
        subst (λ m. count (is_open_loan_of m) (insert r rows) ≤ limit)
          ((==_iff r.member_id member).0 same)
          (ground (arith, count-insert (is_open_loan_of r.member_id) r rows))
    | inr other ↦ ground (arith, count-insert (is_open_loan_of member) r rows, h.within member)
  ];
  unmarked = insert-All _ r rows h.unmarked plain;
}

-- The whole table, and what a new loan of a member needs.
abbrev pub Within : ℕ → Db → Type 0
Within limit d = LoansWithin limit d.borrows

abbrev Room : ℕ → ℕ → Db → Type 0
Room limit member d =
    LoansWithin limit d.borrows × (count (is_open_loan_of member) d.borrows < limit)

get_member-Ensures :
    (P : Db → Type 0) (env : Env) (i : ℕ)
    → Ensures P (Members.get_by_id_for_update env i) (λ o d. P d × (o ≡ Members.get_by_id i d))
unfolding Members.get_by_id_for_update
get_member-Ensures P env i =
    >>=-Ensures _ _ (reads-Ensures P _ (lock-Reads env (member_row i))) (λ _. query-Ensures P _)

key-member : (i : ℕ) (d : Db) (m : Member) → Members.get_by_id i d ≡ some m → m.id ≡ i
unfolding Members.get_by_id
key-member i d m e = ground (arith, key-find i d.members m)

-- The validation leaves room for one more loan.
validate-Room :
    (env : Env) (cfg : Config) (m : Member)
    → Ensures
        (Within cfg.max_borrow_limit)
        (validate_member_for_borrow env cfg m)
        (λ _. Room cfg.max_borrow_limit m.id)
unfolding validate_member_for_borrow Borrows.get_active_by_member_id
validate-Room env cfg m =
    >>=-Ensures _ _
      (reads-Ensures _ _ (
        raise_if-Reads (not (is_active_member m.membership_status)) (
          if is_suspended m.membership_status
          then Error.member_suspended
          else Error.member_inactive)))
      λ _.
        >>=-Ensures _ _
          (reads-Ensures _ _ (query-Reads (Borrows.get_overdue_by_member_id_count m.id env.now)))
          λ overdue_count.
            >>=-Ensures _ _
              (reads-Ensures _ _ (raise_if-Reads (ltb 0 overdue_count) Error.overdue_member))
              λ _.
                >>=-Ensures _ _
                  (query-Ensures (Within cfg.max_borrow_limit)
                    (Borrows.get_active_by_member_id m.id))
                  λ active.
                    weaken-Ensures _
                      (raise_if-Ensures _ (leb cfg.max_borrow_limit (length active))
                        Error.borrow_limit_exceeded)
                      λ _ d h. (h.0.0, room d active h.0.1 h.1)
  where
    room :
        (d : Db) (active : List BorrowRecord)
        → active ≡ Borrows.get_active_by_member_id m.id d
        → leb cfg.max_borrow_limit (length active) ≡ false
        → count (is_open_loan_of m.id) d.borrows < cfg.max_borrow_limit
    room d active e below =
        ground (arith, ap length e, length-select (is_open_loan_of m.id) d.borrows, below)

module _ (env : Env) (cfg : Config) where
  abbrev limit : ℕ
  limit = cfg.max_borrow_limit

  module _ (member_id i : ℕ) where
    create_loan-Within :
        Ensures
          (Room limit member_id)
          (Borrows.create (new_loan env cfg member_id i))
          (λ _. Within limit)
    unfolding Borrows.create
    create_loan-Within =
        modify-Ensures _ _
          λ d h. insert-LoansWithin limit (new_loan env cfg member_id i) d.borrows h.0 h.1 refl

    -- What writes books and reservations leaves the room.
    abbrev R : Db → Type 0
    R = Room limit member_id

    lend-Within : (book : Book) → Ensures R (lend env cfg member_id i book) (λ _. Within limit)
    unfolding lend
    lend-Within book =
        >>=-Ensures _ _ ((Untouched.find_active_hold-Preserves R env i).ensured) λ hold.
          >>=-Ensures _ _
            ((Untouched.complete_hold-Preserves R (λ b d h. h) env (λ r d h. h) member_id
              hold).ensured)
            λ completed.
              >>=-Ensures _ _
                ((Untouched.take_copy-Preserves R (λ b d h. h) completed book).ensured)
                λ _. >>=-Ensures _ _ create_loan-Within λ _. reads-Ensures _ _ (
                  >>-Reads _ _ flush-Reads (
                    >>-Reads _ _ (observe-Reads count_borrowing)
                      (pure-Reads (new_loan env cfg member_id i))))

    borrow_book_body-Within :
        Ensures (Within limit) (borrow_book_body env cfg member_id i) (λ _. Within limit)
    unfolding borrow_book_body
    borrow_book_body-Within =
        >>=-Ensures _ _ (get_member-Ensures (Within limit) env member_id) λ found_member.
          >>=-Ensures _ _
            (found-Ensures (Members.get_by_id member_id) found_member Error.value_error)
            λ m. >>=-Ensures _ _ (validated m) λ _.
              >>=-Ensures _ _ ((Untouched.get_book-Preserves R env i).ensured) λ found_book.
                >>=-Ensures _ _ (reads-Ensures R _ (or_raise-Reads found_book Error.book_not_found))
                  λ book.
                    >>=-Ensures _ _
                      (reads-Ensures R _ (raise_if-Reads book.is_deleted Error.book_not_found))
                      (λ _. lend-Within book)
      where
        validated :
            (m : Member)
            → Ensures
                (λ d. Within limit d × (Members.get_by_id member_id d ≡ some m))
                (validate_member_for_borrow env cfg m)
                (λ _. R)
        validated m = record {
          on_ok = λ s h.
              subst (λ k. OnOk (λ _. Room limit k) (validate_member_for_borrow env cfg m s))
                (key-member member_id s.db m h.1) ((validate-Room env cfg m).on_ok s h.0);
        }

    pub borrow_book-Within :
        Ensures (Within limit) (borrow_book env cfg member_id i) (λ _. Within limit)
    unfolding borrow_book
    borrow_book-Within =
        transactional-Ensures _ (catch_operational-Ensures _ borrow_book_body-Within)
