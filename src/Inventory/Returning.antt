-- ===== src/Inventory/Returning.antt =====
-- `return_book` and `renew_book` keep the accounts.
use production_library_manag.Prelude.{
  ℕ, ◌≡◌, refl, sym, subst, none, some, false, arith, if◌then◌else◌, Bool-cases, inl, inr,
}
use production_library_manag.Prelude.Rows.{find, key-find}
use production_library_manag.Enums.{is_returned}
use production_library_manag.Errors.{Error}
use production_library_manag.Models.{BorrowRecord, Db, borrow_key}
use production_library_manag.Session.{Env, pure}
use production_library_manag.Session.Logic.{
  Ensures, Reads, reads, reads-Ensures, raise_if-Ensures, flush-Reads, pure-Reads, modify-Ensures,
  query-Ensures, found-Ensures, >>=-Ensures, >>-Reads, strengthen-Ensures, transactional-Ensures,
  catch_operational-Ensures,
}
use production_library_manag.Repositories.Borrows
use production_library_manag.Services.Borrows.{
  Config, returned_at, renewed_by, give_back, close_loan, return_book_body, return_book,
  check_renewal, renew_book_body, renew_book,
}
use production_library_manag.Inventory.Defs.{IsBalanced}
use production_library_manag.Inventory.Rows.{return-IsBalanced, renew-IsBalanced}
use production_library_manag.Inventory.Promotion.{
  shelve-IsBalanced, promote_next_reservation-IsBalanced,
}

module _ (env : Env) (cfg : Config) where
  give_back-IsBalanced :
      (i : ℕ) → Ensures (IsBalanced (some i)) (give_back env cfg i) (λ _. IsBalanced none)
  unfolding give_back
  give_back-IsBalanced i = elim (Bool-cases cfg.has_reservation_service) [
    | inl wired ↦ rw wired (promote_next_reservation-IsBalanced env i)
    | inr alone ↦ rw alone (shelve-IsBalanced env i)
  ]

  -- The loan is in the table, and still out.
  abbrev Open : BorrowRecord → Db → Type 0
  Open loan d =
      IsBalanced none d × (find loan.id d.borrows ≡ some loan) × (is_returned loan.status ≡ false)

  save_returned-IsBalanced :
      (loan : BorrowRecord)
      → Ensures
          (Open loan)
          (Borrows.update (returned_at env.now loan))
          (λ _. IsBalanced (some loan.book_id))
  unfolding Borrows.update
  save_returned-IsBalanced loan = modify-Ensures _ _ λ d h.
      return-IsBalanced d loan (returned_at env.now loan) h.0 h.1 refl (ground (arith, h.2)) refl

  close_loan-IsBalanced :
      (loan : BorrowRecord) → Ensures (Open loan) (close_loan env cfg loan) (λ _. IsBalanced none)
  unfolding close_loan
  close_loan-IsBalanced loan = >>=-Ensures _ _ (save_returned-IsBalanced loan) λ _.
      >>=-Ensures _ _ (reads-Ensures _ _ flush-Reads) λ _.
        >>=-Ensures _ _ (give_back-IsBalanced loan.book_id) λ _. reads-Ensures _ _ (pure-Reads _)

  abbrev Found : ℕ → BorrowRecord → Db → Type 0
  Found i loan d = IsBalanced none d × (Borrows.get_by_id i d ≡ some loan)

  Found-find :
      (i : ℕ) (loan : BorrowRecord) (d : Db) → Found i loan d → find loan.id d.borrows ≡ some loan
  unfolding Borrows.get_by_id
  Found-find i loan d h =
      subst (λ k. find k d.borrows ≡ some loan) (sym (key-find i d.borrows loan h.1)) h.1

  settle-IsBalanced :
      (i : ℕ) (loan : BorrowRecord)
      → Ensures
          (Found i loan)
          (if is_returned loan.status then pure (loan, none) else close_loan env cfg loan)
          (λ _. IsBalanced none)
  settle-IsBalanced i loan = elim (Bool-cases (is_returned loan.status)) [
    | inl again ↦ rw again (record { on_ok = λ s h. h.0 })
    | inr out ↦ rw out (
        strengthen-Ensures _ (λ d h. (h.0, Found-find i loan d h, out))
          (close_loan-IsBalanced loan))
  ]

  -- A return keeps every copy accounted for, also a repeated one.
  pub return_book-IsBalanced :
      (i : ℕ) → Ensures (IsBalanced none) (return_book env cfg i) (λ _. IsBalanced none)
  unfolding return_book return_book_body
  return_book-IsBalanced i = transactional-Ensures _ (
      catch_operational-Ensures _ (
        >>=-Ensures _ _ (query-Ensures _ (Borrows.get_by_id i)) λ found.
          >>=-Ensures _ _ (found-Ensures (Borrows.get_by_id i) found Error.value_error)
            (settle-IsBalanced i)))

  save_renewed-IsBalanced :
      (loan : BorrowRecord)
      → Ensures (Open loan) (Borrows.update (renewed_by cfg loan)) (λ _. IsBalanced none)
  unfolding Borrows.update
  save_renewed-IsBalanced loan =
      modify-Ensures _ _
        λ d h. renew-IsBalanced d none loan (renewed_by cfg loan) h.0 h.1 refl (ground (arith, h.2))

  check_renewal-Reads : (loan : BorrowRecord) → Reads (check_renewal env cfg loan)
  unfolding check_renewal
  check_renewal-Reads loan = search reads

  renew_book_body-IsBalanced :
      (i : ℕ) → Ensures (IsBalanced none) (renew_book_body env cfg i) (λ _. IsBalanced none)
  unfolding renew_book_body
  renew_book_body-IsBalanced i = >>=-Ensures _ _ (query-Ensures _ (Borrows.get_by_id i)) λ found.
      >>=-Ensures _ _ (found-Ensures (Borrows.get_by_id i) found Error.value_error) λ loan.
        >>=-Ensures _ _
          (raise_if-Ensures (Found i loan) (is_returned loan.status) Error.book_already_returned)
          λ _. >>=-Ensures _ _ (reads-Ensures _ _ (check_renewal-Reads loan)) λ _.
            >>=-Ensures _ _
              (strengthen-Ensures _ (λ d h. (h.0.0, Found-find i loan d h.0, h.1))
                (save_renewed-IsBalanced loan))
              λ _. reads-Ensures _ _ (>>-Reads _ _ flush-Reads (pure-Reads (renewed_by cfg loan)))

  -- A renewal keeps every copy accounted for.
  pub renew_book-IsBalanced :
      (i : ℕ) → Ensures (IsBalanced none) (renew_book env cfg i) (λ _. IsBalanced none)
  unfolding renew_book
  renew_book-IsBalanced i =
      transactional-Ensures _ (catch_operational-Ensures _ (renew_book_body-IsBalanced i))
