-- ===== src/Progress/Returns.antt =====
-- A loan that is out can always be returned.
use production_library_manag.Prelude.{
  ℕ, ◌≡◌, refl, sym, subst, ◌∙◌, Option, none, some, true, false, if◌then◌else◌, arith, inl, inr,
  Bool-cases,
}
use production_library_manag.Prelude.Rows.{find, key-find}
use production_library_manag.Enums.{is_returned}
use production_library_manag.Errors.{Error}
use production_library_manag.Models.{BorrowRecord, Db, borrow_key, borrow_ok, satisfies_constraints}
use production_library_manag.Models.Constraints.{all-find, satisfied-borrows, save_borrow-satisfied}
use production_library_manag.Session.{
  Env, Lock, Session, ok, pure, transactional, catch_operational,
}
use production_library_manag.Session.Atomic.{catch_operational-Frames}
use production_library_manag.Session.Total.{
  Achieves, pure-Achieves, query-Achieves, found-Achieves, modify-Achieves, flush-Achieves,
  >>=-Achieves, strengthen-Achieves, weaken-Achieves, both-Achieves, catch_operational-Achieves,
  transactional-Achieves, transactional-committed,
}
use production_library_manag.Repositories.Borrows
use production_library_manag.Services.Atomicity
use production_library_manag.Services.Fine.{calculate_fine}
use production_library_manag.Services.Borrows.{
  Config, returned_at, give_back, close_loan, return_book_body, return_book,
}
use production_library_manag.Services.Borrows.Returns.{Stored, return_book-Closed}
use production_library_manag.Inventory.Defs.{IsBalanced}
use production_library_manag.Inventory.Rows.{return-IsBalanced}
use production_library_manag.Inventory.Returning.{return_book-IsBalanced}
use production_library_manag.Session.Flushed.{Satisfied}
use production_library_manag.Progress.Promotion.{
  Handed, Ordered, shelve-Achieves, promote_next_reservation-Achieves,
}

module _ (env : Env) (free : (l : Lock) → env.conflict l ≡ false) (cfg : Config) where
  give_back-Achieves : (i : ℕ) → Achieves (Handed i) (give_back env cfg i) (λ _. Satisfied)
  unfolding give_back
  give_back-Achieves i = elim (Bool-cases cfg.has_reservation_service) [
    | inl wired ↦
        rw wired (weaken-Achieves _ (promote_next_reservation-Achieves env free i) (λ _ d h. h.0))
    | inr alone ↦ rw alone (shelve-Achieves env free i)
  ]

  module _ (loan : BorrowRecord) (out : is_returned loan.status ≡ false) where
    -- The loan is in the table.
    abbrev Lent : Db → Type 0
    Lent d = Ordered d × (find loan.id d.borrows ≡ some loan)

    returned-Satisfied : (d : Db) → Lent d → Satisfied (Borrows.save (returned_at env.now loan) d)
    unfolding borrow_ok
    returned-Satisfied d h =
        save_borrow-satisfied d loan (returned_at env.now loan) h.1
          (all-find borrow_ok loan.id loan d.borrows (satisfied-borrows d h.0.0) h.1) h.0.0

    save_returned-Achieves :
        Achieves Lent (Borrows.update (returned_at env.now loan)) (λ _. Handed loan.book_id)
    unfolding Borrows.update
    save_returned-Achieves = modify-Achieves _ (Borrows.save (returned_at env.now loan)) λ d h. (
      returned-Satisfied d h,
      return-IsBalanced d loan (returned_at env.now loan) h.0.1 h.1 refl (ground (arith, out)) refl,
    )

    fine : ℕ
    fine = calculate_fine cfg.fine_calculator loan.due_date env.now

    close_loan-Achieves :
        Achieves Lent
          (close_loan env cfg loan)
          (λ a d. Satisfied d × (a ≡ (returned_at env.now loan, some fine)))
    unfolding close_loan fine
    close_loan-Achieves = >>=-Achieves _ _ save_returned-Achieves λ _.
        >>=-Achieves _ _ (flush-Achieves _ (λ d h. h.0))
          λ _. >>=-Achieves _ _ (give_back-Achieves loan.book_id) λ _. pure-Achieves _ _

  return_found-Achieves :
      (i : ℕ) (loan : BorrowRecord)
      → is_returned loan.status ≡ false
      → (r : BorrowRecord)
      → Achieves
          (λ d. (Ordered d × (Borrows.get_by_id i d ≡ some loan)) × (r ≡ loan))
          (if is_returned r.status then pure (r, none) else close_loan env cfg r)
          (λ a d.
            Satisfied d
            × (a ≡ (
              returned_at env.now loan,
              some (calculate_fine cfg.fine_calculator loan.due_date env.now),
            )))
  unfolding Borrows.get_by_id fine
  return_found-Achieves i loan out r = record {
    achieved = λ s h.
        let there =
          subst (λ k. find k s.db.borrows ≡ some loan) (sym (key-find i s.db.borrows loan h.0.1))
            h.0.1 in
        rw (h.1, out) ((close_loan-Achieves loan out).achieved s (h.0.0, there));
  }

  module _ (i : ℕ) (loan : BorrowRecord) (out : is_returned loan.status ≡ false) where
    abbrev pub answer : BorrowRecord × Option ℕ
    answer =
        (returned_at env.now loan, some (calculate_fine cfg.fine_calculator loan.due_date env.now))

    abbrev pub Known : Db → Type 0
    Known d = Ordered d × (Borrows.get_by_id i d ≡ some loan)

    return_book_body-Achieves :
        Achieves Known (return_book_body env cfg i) (λ a d. Satisfied d × (a ≡ answer))
    unfolding return_book_body
    return_book_body-Achieves = >>=-Achieves _ _ (query-Achieves Known (Borrows.get_by_id i)) λ o.
        >>=-Achieves _ _
          (strengthen-Achieves _ (λ d h. (h.0, h.1 ∙ h.0.1))
            (found-Achieves Known o loan Error.value_error))
          (return_found-Achieves i loan out)

    pub return_book-Achieves :
        Achieves Known (return_book env cfg i) (λ a d. Satisfied d × (a ≡ answer))
    unfolding return_book
    return_book-Achieves =
        transactional-Achieves _ (catch_operational-Achieves _ return_book_body-Achieves)

    -- From outside any transaction, when no lock is refused, the rows satisfy the constraints of
    -- the tables and every copy is accounted for, a loan that is out can be returned: the record is
    -- answered as returned now, with its fine, and committed, and what is committed satisfies the
    -- constraints and has every copy accounted for.
    pub return_book-succeeds :
        (s : Session)
        → s.depth ≡ 0
        → satisfies_constraints s.db ≡ true
        → IsBalanced none s.db
        → Borrows.get_by_id i s.db ≡ some loan
        → ((return_book env cfg i s).0
            ≡ ok (
              returned_at env.now loan,
              some (calculate_fine cfg.fine_calculator loan.due_date env.now),
            ))
          × (Borrows.get_by_id i (return_book env cfg i s).1.committed
              ≡ some (returned_at env.now loan))
          × (satisfies_constraints (return_book env cfg i s).1.committed ≡ true)
          × IsBalanced none (return_book env cfg i s).1.committed
    unfolding return_book
    return_book-succeeds s outside sat bal there =
        let (a, e, done) =
          transactional-committed (catch_operational (return_book_body env cfg i)) s
            (catch_operational-Frames _ (Atomicity.return_book_body-Frames env cfg i))
            (both-Achieves _ (both-Achieves _ return_book-Achieves (return_book-Closed env cfg i))
              (return_book-IsBalanced env cfg i))
            outside ((((sat, bal), there), tt), bal) in
        (
          rw (← done.0.0.1) e,
          subst
              (λ x.
                Stored env cfg i x.0
                  (transactional (catch_operational (return_book_body env cfg i)) s).1.committed)
              done.0.0.1 done.0.1.0,
          done.0.0.0,
          done.1,
        )
