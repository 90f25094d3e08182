-- ===== src/Lifecycle/Lending.antt =====
-- The services move a loan along its path only, and remove none.
use production_library_manag.Prelude.{
  ℕ, ◌*◌, ◌≡◌, refl, none, some, false, leb, arith, if◌then◌else◌, Bool-cases, inl, inr,
}
use production_library_manag.Prelude.Rows.{key-find}
use production_library_manag.Enums.{is_returned, day, max_renewals}
use production_library_manag.Errors.{Error}
use production_library_manag.Models.{Book, BorrowRecord, Db, borrow_key}
use production_library_manag.Session.{Env, pure}
use production_library_manag.Session.Logic.{
  Ensures, reads-Ensures, query-Ensures, found-Ensures, raise_if-Ensures, flush-Reads, pure-Reads,
  raise_if-Reads, >>-Reads, modify-Ensures, >>=-Ensures, weaken-Ensures, transactional-Ensures,
  catch_operational-Ensures,
}
use production_library_manag.Session.Preserve.{Preserves, preserves, modify-Preserves}
use production_library_manag.Repositories.Borrows
use production_library_manag.Services.Borrows.{
  Config, lend, borrow_book_body, borrow_book, returned_at, renewed_by, close_loan,
  return_book_body, return_book, check_renewal, renew_book_body, renew_book,
}
use production_library_manag.Limits.Untouched
use production_library_manag.Lifecycle.Loans.{LoanStep, renewal, giving_back}
use production_library_manag.Lifecycle.Tables.{IsFollowed, insert-IsFollowed, put-IsFollowed}

abbrev pub period_of : Config → ℕ
period_of cfg = cfg.renewal_days * day

abbrev pub Followed : Config → Db → Db → Type 0
Followed cfg start d = IsFollowed (LoanStep (period_of cfg)) start.borrows d.borrows

module _ (env : Env) (cfg : Config) (start : Db) where
  abbrev P : Db → Type 0
  P = Followed cfg start

  create-Followed : (r : BorrowRecord) → Preserves P (Borrows.create r)
  unfolding Borrows.create
  create-Followed r =
      modify-Preserves P _
        (λ d h. insert-IsFollowed (LoanStep (period_of cfg)) start.borrows d.borrows h r)

  lend-Followed : (m i : ℕ) (b : Book) → Preserves P (lend env cfg m i b)
  unfolding lend
  lend-Followed m i b =
      let completed = Untouched.complete_hold-Preserves P (λ b d h. h) env (λ r d h. h) in
      let taken = Untouched.take_copy-Preserves P (λ b d h. h) in
      search (preserves, Untouched.find_active_hold-Preserves, completed, taken, create-Followed)
        depth 12

  pub borrow_book-Followed : (m i : ℕ) → Preserves P (borrow_book env cfg m i)
  unfolding borrow_book borrow_book_body
  borrow_book-Followed m i =
      search
        (
          preserves, Untouched.get_member-Preserves, Untouched.get_book-Preserves,
          Untouched.validate-Preserves, lend-Followed,
        )
        depth 14

  -- A loan that was looked up by its id and is not returned.
  abbrev Open : ℕ → BorrowRecord → Db → Type 0
  Open i r d = P d × (Borrows.get_by_id i d ≡ some r) × (is_returned r.status ≡ false)

  step-Followed :
      (i : ℕ) (r r' : BorrowRecord) (d : Db)
      → P d
      → Borrows.get_by_id i d ≡ some r
      → LoanStep (period_of cfg) r r'
      → r'.id ≡ r.id
      → P (Borrows.save r' d)
  unfolding Borrows.get_by_id
  step-Followed i r r' d h e step same =
      put-IsFollowed (LoanStep (period_of cfg)) start.borrows d.borrows h r r'
        (ground (arith, same, e, key-find i d.borrows r e)) step

  return_record-Followed :
      (i : ℕ) (r : BorrowRecord)
      → Ensures (Open i r) (Borrows.update (returned_at env.now r)) (λ _. P)
  unfolding Borrows.update
  return_record-Followed i r = modify-Ensures _ (Borrows.save (returned_at env.now r)) λ d h.
      step-Followed i r (returned_at env.now r) d h.0 h.1
        (giving_back
          (record { same_id = refl; same_member = refl; same_book = refl; same_start = refl }) h.2
          refl refl refl)
        refl

  close_loan-Followed :
      (i : ℕ) (r : BorrowRecord) → Ensures (Open i r) (close_loan env cfg r) (λ _. P)
  unfolding close_loan
  close_loan-Followed i r = >>=-Ensures _ _ (return_record-Followed i r) λ _.
      >>=-Ensures _ _ (reads-Ensures P _ flush-Reads) λ _.
        >>=-Ensures _ _
          ((Untouched.give_back-Preserves P (λ b d h. h) env (λ r d h. h) cfg r.book_id).ensured)
          λ _. reads-Ensures P _ (pure-Reads _)

  closed-Followed :
      (i : ℕ) (r : BorrowRecord)
      → Ensures
          (λ d. P d × (Borrows.get_by_id i d ≡ some r))
          (if is_returned r.status then pure (r, none) else close_loan env cfg r)
          (λ _. P)
  closed-Followed i r = elim (Bool-cases (is_returned r.status)) [
    | inl back ↦ rw back (
        weaken-Ensures _
          (reads-Ensures (λ d. P d × (Borrows.get_by_id i d ≡ some r)) _ (pure-Reads _))
          (λ _ d h. h.0))
    | inr out ↦ rw out record { on_ok = λ s h. (close_loan-Followed i r).on_ok s (h.0, h.1, out) }
  ]

  pub return_book-Followed : (i : ℕ) → Ensures P (return_book env cfg i) (λ _. P)
  unfolding return_book return_book_body
  return_book-Followed i = transactional-Ensures _ (
      catch_operational-Ensures _ (
        >>=-Ensures _ _ (query-Ensures P (Borrows.get_by_id i)) λ found.
          >>=-Ensures _ _ (found-Ensures (Borrows.get_by_id i) found Error.value_error)
            (closed-Followed i)))

  check_renewal-room :
      (Q : Db → Type 0) (r : BorrowRecord)
      → Ensures Q
          (check_renewal env cfg r)
          (λ _ d. Q d × (leb max_renewals r.renewal_count ≡ false))
  unfolding check_renewal
  check_renewal-room Q r =
      >>=-Ensures _ _
        (raise_if-Ensures Q (leb max_renewals r.renewal_count) Error.renewal_limit_exceeded)
        λ _. reads-Ensures _ _ (>>-Reads _ _ (raise_if-Reads _ _) (raise_if-Reads _ _))

  renew_record-Followed :
      (i : ℕ) (r : BorrowRecord)
      → Ensures
          (λ d.
            ((P d × (Borrows.get_by_id i d ≡ some r)) × (is_returned r.status ≡ false))
            × (leb max_renewals r.renewal_count ≡ false))
          (Borrows.update (renewed_by cfg r))
          (λ _. P)
  unfolding Borrows.update
  renew_record-Followed i r = modify-Ensures _ (Borrows.save (renewed_by cfg r)) λ d h.
      step-Followed i r (renewed_by cfg r) d h.0.0.0 h.0.0.1
        (renewal
          (record { same_id = refl; same_member = refl; same_book = refl; same_start = refl }) h.0.1
          (ground (arith, h.1)) refl refl refl)
        refl

  pub renew_book-Followed : (i : ℕ) → Ensures P (renew_book env cfg i) (λ _. P)
  unfolding renew_book renew_book_body
  renew_book-Followed i = transactional-Ensures _ (
      catch_operational-Ensures _ (
        >>=-Ensures _ _ (query-Ensures P (Borrows.get_by_id i)) λ found.
          >>=-Ensures _ _ (found-Ensures (Borrows.get_by_id i) found Error.value_error) λ r.
            >>=-Ensures _ _
              (raise_if-Ensures (λ d. P d × (Borrows.get_by_id i d ≡ some r)) (is_returned r.status)
                Error.book_already_returned)
              λ _. >>=-Ensures _ _ (check_renewal-room _ r) λ _.
                >>=-Ensures _ _ (renew_record-Followed i r) λ _.
                  reads-Ensures P _ (>>-Reads _ _ flush-Reads (pure-Reads (renewed_by cfg r)))))
