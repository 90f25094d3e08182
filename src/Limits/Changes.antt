-- ===== src/Limits/Changes.antt =====
-- The other services, and any history of requests, keep every member within the loan limit.
use production_library_manag.Prelude.{
  ℕ, ◌≡◌, refl, true, false, arith, none, some, if◌then◌else◌, Bool-cases, inl, inr,
}
use production_library_manag.Prelude.Rows.{find, key-find, find-All}
use production_library_manag.Enums.{is_overdue, BorrowStatus, is_open, is_returned}
use production_library_manag.Errors.{Error}
use production_library_manag.Models.{BorrowRecord, Db, borrow_key}
use production_library_manag.Session.{Env, pure}
use production_library_manag.Session.Logic.{
  Ensures, reads-Ensures, query-Ensures, found-Ensures, raise_if-Ensures, flush-Reads, pure-Reads,
  >>-Reads, modify-Ensures, >>=-Ensures, weaken-Ensures, transactional-Ensures,
  catch_operational-Ensures,
}
use production_library_manag.Repositories.Borrows
use production_library_manag.Services.Borrows.{
  Config, returned_at, renewed_by, close_loan, return_book_body, return_book, renew_book_body,
  renew_book,
}
use production_library_manag.Limits.Untouched
use production_library_manag.Limits.Loans.{Within, put-LoansWithin}

still_open : (s : BorrowStatus) → is_returned s ≡ false → is_overdue s ≡ false → is_open s ≡ true
still_open BorrowStatus.borrowed h e = refl
still_open BorrowStatus.returned h e = cc
still_open BorrowStatus.renewed h e = refl
still_open BorrowStatus.overdue h e = cc

-- A loan is found by its own id.
key-borrow :
    (i : ℕ) (d : Db) (r : BorrowRecord)
    → Borrows.get_by_id i d ≡ some r
    → find r.id d.borrows ≡ some r
unfolding Borrows.get_by_id
key-borrow i d r e = ground (arith, key-find i d.borrows r)

module _ (limit : ℕ) (env : Env) (cfg : Config) (i : ℕ) where
  abbrev Found : BorrowRecord → Db → Type 0
  Found r d = Within limit d × (Borrows.get_by_id i d ≡ some r)

  return_record-Within :
      (r : BorrowRecord)
      → Ensures (Found r) (Borrows.update (returned_at env.now r)) (λ _. Within limit)
  unfolding Borrows.update
  return_record-Within r = modify-Ensures _ _ λ d h.
      put-LoansWithin limit r (returned_at env.now r) d.borrows h.0 (key-borrow i d r h.1) refl
        (λ e. cc) refl

  close_loan-Within :
      (r : BorrowRecord) → Ensures (Found r) (close_loan env cfg r) (λ _. Within limit)
  unfolding close_loan
  close_loan-Within r = >>=-Ensures _ _ (return_record-Within r) λ _.
      >>=-Ensures _ _ (reads-Ensures (Within limit) _ flush-Reads) λ _.
        >>=-Ensures _ _
          ((Untouched.give_back-Preserves (Within limit) (λ b d h. h) env (λ r d h. h) cfg
            r.book_id).ensured)
          λ _. reads-Ensures (Within limit) _ (pure-Reads _)

  closed-Within :
      (r : BorrowRecord)
      → Ensures
          (Found r)
          (if is_returned r.status then pure (r, none) else close_loan env cfg r)
          (λ _. Within limit)
  closed-Within r = elim (Bool-cases (is_returned r.status)) [
    | inl back ↦
        rw back (weaken-Ensures _ (reads-Ensures (Found r) _ (pure-Reads _)) (λ _ d h. h.0))
    | inr out ↦ rw out (close_loan-Within r)
  ]

  return_book_body-Within : Ensures (Within limit) (return_book_body env cfg i) (λ _. Within limit)
  unfolding return_book_body
  return_book_body-Within =
      >>=-Ensures _ _ (query-Ensures (Within limit) (Borrows.get_by_id i)) λ found.
        >>=-Ensures _ _ (found-Ensures (Borrows.get_by_id i) found Error.value_error) closed-Within

  pub return_book-Within : Ensures (Within limit) (return_book env cfg i) (λ _. Within limit)
  unfolding return_book
  return_book-Within = transactional-Ensures _ (catch_operational-Ensures _ return_book_body-Within)

  renew_record-Within :
      (r : BorrowRecord)
      → Ensures
          (λ d. Found r d × (is_returned r.status ≡ false))
          (Borrows.update (renewed_by cfg r))
          (λ _. Within limit)
  unfolding Borrows.update
  renew_record-Within r = modify-Ensures _ _ λ d h.
      put-LoansWithin limit r (renewed_by cfg r) d.borrows h.0.0 (key-borrow i d r h.0.1) refl
        (λ e. still_open r.status h.1 (
          find-All (λ r. is_overdue r.status ≡ false) r.id d.borrows r h.0.0.unmarked
            (key-borrow i d r h.0.1)))
        refl

  renew_book_body-Within : Ensures (Within limit) (renew_book_body env cfg i) (λ _. Within limit)
  unfolding renew_book_body
  renew_book_body-Within =
      >>=-Ensures _ _ (query-Ensures (Within limit) (Borrows.get_by_id i)) λ found.
        >>=-Ensures _ _ (found-Ensures (Borrows.get_by_id i) found Error.value_error) λ r.
          >>=-Ensures _ _
            (raise_if-Ensures (Found r) (is_returned r.status) Error.book_already_returned)
            λ _. >>=-Ensures _ _ ((Untouched.check_renewal-Preserves _ env cfg r).ensured) λ _.
              >>=-Ensures _ _ (renew_record-Within r) λ _.
                reads-Ensures (Within limit) _
                  (>>-Reads _ _ flush-Reads (pure-Reads (renewed_by cfg r)))

  pub renew_book-Within : Ensures (Within limit) (renew_book env cfg i) (λ _. Within limit)
  unfolding renew_book
  renew_book-Within = transactional-Ensures _ (catch_operational-Ensures _ renew_book_body-Within)
