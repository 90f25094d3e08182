-- ===== src/Services/Borrows/Returns.antt =====
-- A loan is closed once.
use production_library_manag.Prelude.{
  ℕ, ◌≡◌, refl, sym, subst, Option, none, some, true, arith, Bool-cases, inl, inr, if◌then◌else◌,
}
use production_library_manag.Prelude.Rows.{find, find-put, key-find}
use production_library_manag.Enums.{is_returned}
use production_library_manag.Errors.{Error}
use production_library_manag.Models.{BorrowRecord, Db, borrow_key}
use production_library_manag.Session.{Env, Session, Result, ok, err, pure, transactional}
use production_library_manag.Session.Atomic.{
  Atomically, transactional-Atomically, catch_operational-Frames,
}
use production_library_manag.Session.Logic.{
  Ensures, OnOk, reads-Ensures, query-Ensures, found-Ensures, flush-Reads, modify-Ensures,
  >>=-Ensures, strengthen-Ensures, transactional-Ensures, catch_operational-Ensures,
}
use production_library_manag.Repositories.Borrows
use production_library_manag.Services.Borrows.{
  Config, returned_at, close_loan, return_book_body, return_book,
}
use production_library_manag.Services.Atomicity
use production_library_manag.Limits.Untouched

Atomically-depth :
    {A : Type 0} (s : Session) (x : Result A × Session) → Atomically s x → x.1.depth ≡ 0
Atomically-depth s (ok a, s') h = h.1
Atomically-depth s (err e, s') h = h.2

module _ (env : Env) (cfg : Config) (i : ℕ) where
  abbrev pub Stored : BorrowRecord → Db → Type 0
  Stored r d = Borrows.get_by_id i d ≡ some r

  -- The loan is in the table, and returned.
  abbrev pub Closed : BorrowRecord × Option ℕ → Db → Type 0
  Closed a d = Stored a.0 d × (is_returned a.0.status ≡ true)

  save_returned-Ensures :
      (r : BorrowRecord)
      → Ensures
          (Stored r)
          (Borrows.update (returned_at env.now r))
          (λ _. Stored (returned_at env.now r))
  unfolding Borrows.update Borrows.get_by_id
  save_returned-Ensures r = modify-Ensures _ _ λ d h.
      let same = key-find i d.borrows r h in
      let there = subst (λ k. find k d.borrows ≡ some r) (sym same) h in
      ground (arith, same, find-put (returned_at env.now r) r d.borrows i there)

  close_loan-Closed : (r : BorrowRecord) → Ensures (Stored r) (close_loan env cfg r) Closed
  unfolding close_loan Borrows.get_by_id
  close_loan-Closed r = >>=-Ensures _ _ (save_returned-Ensures r) λ _.
      >>=-Ensures _ _ (reads-Ensures _ _ flush-Reads) λ _.
        >>=-Ensures _ _
          ((Untouched.give_back-Preserves (Stored (returned_at env.now r)) (λ b d h. h) env
            (λ r d h. h) cfg r.book_id).ensured)
          λ _. record { on_ok = λ s h. (h, refl) }

  close_found-Closed :
      (r : BorrowRecord)
      → Ensures
          (λ d. Unit {0} × Stored r d)
          (if is_returned r.status then pure (r, none) else close_loan env cfg r)
          Closed
  close_found-Closed r = elim (Bool-cases (is_returned r.status)) [
    | inl back ↦ rw back (record { on_ok = λ s h. (h.1, back) })
    | inr out ↦ rw out (strengthen-Ensures _ (λ d h. h.1) (close_loan-Closed r))
  ]

  return_book_body-Closed : Ensures (λ _. Unit {0}) (return_book_body env cfg i) Closed
  unfolding return_book_body
  return_book_body-Closed =
      >>=-Ensures _ _ (query-Ensures (λ _. Unit {0}) (Borrows.get_by_id i)) λ found.
        >>=-Ensures _ _ (found-Ensures (Borrows.get_by_id i) found Error.value_error)
          close_found-Closed

  pub return_book-Closed : Ensures (λ _. Unit {0}) (return_book env cfg i) Closed
  unfolding return_book
  return_book-Closed = transactional-Ensures _ (catch_operational-Ensures _ return_book_body-Closed)

  return_book-outside : (s : Session) → s.depth ≡ 0 → (return_book env cfg i s).1.depth ≡ 0
  unfolding return_book
  return_book-outside s h = Atomically-depth s _ (
      transactional-Atomically _
        (catch_operational-Frames _ (Atomicity.return_book_body-Frames env cfg i)) s h)

  already_returned :
      (s : Session) (r : BorrowRecord)
      → s.depth ≡ 0
      → Stored r s.db
      → is_returned r.status ≡ true
      → ((return_book env cfg i s).0 ≡ ok (r, none)) × ((return_book env cfg i s).1.db ≡ s.db)
  unfolding return_book return_book_body transactional
  already_returned s r outside there back = simp (outside, there, back) (refl, refl)

-- Once a loan has been returned, returning it again, at whatever time, answers the same record
-- without a fine and changes nothing in the database.
pub return_book-once :
    (env later : Env) (cfg : Config) (i : ℕ) (s s' : Session) (r : BorrowRecord) (fine : Option ℕ)
    → s.depth ≡ 0
    → return_book env cfg i s ≡ (ok (r, fine), s')
    → ((return_book later cfg i s').0 ≡ ok (r, none)) × ((return_book later cfg i s').1.db ≡ s'.db)
return_book-once env later cfg i s s' r fine outside e =
    let closed =
      subst (λ x. OnOk (Closed env cfg i) x) e ((return_book-Closed env cfg i).on_ok s tt) in
    let ended : s'.depth ≡ 0 = ground (arith, e, return_book-outside env cfg i s outside) in
    already_returned later cfg i s' r ended closed.0 closed.1
