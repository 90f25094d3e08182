-- ===== src/Progress/Waiting.antt =====
-- A history of returns serves the queue.
use production_library_manag.Prelude.{
  ℕ, suc, ◌≡◌, ◌≢◌, refl, sym, subst, none, some, true, false, List, [], ◌∷◌, map, arith, inl,
  if◌then◌else◌, count, length, All, All-mono, All-and,
}
use production_library_manag.Prelude.Rows.{find, find-put, key-find, IsKeyed}
use production_library_manag.Enums.{is_pending, is_hold, is_returned}
use production_library_manag.Errors.{Error}
use production_library_manag.Models.{
  BorrowRecord, Reservation, Db, borrow_key, reservation_key, satisfies_constraints,
}
use production_library_manag.Session.{Env, Lock, Session, pure}
use production_library_manag.Session.Logic.{
  Ensures, reads-Ensures, pure-Reads, flush-Reads, query-Ensures, found-Ensures, modify-Ensures,
  >>=-Ensures, catch_operational-Ensures, transactional-Ensures,
}
use production_library_manag.Session.Total.{
  Achieves, both-Achieves, strengthen-Achieves, >>=-Achieves, Achieves-db,
}
use production_library_manag.Session.Safe.{IsSettled}
use production_library_manag.Repositories.Borrows
use production_library_manag.Services.Borrows.{
  Config, returned_at, give_back, close_loan, return_book_body, return_book,
}
use production_library_manag.Services.Fine.{calculate_fine}
use production_library_manag.Limits.Untouched
use production_library_manag.Inventory.Defs.{IsBalanced}
use production_library_manag.Inventory.Returning.{return_book-IsBalanced}
use production_library_manag.Requests.{Request, respond, handle, run}
use production_library_manag.Requests.Balance.{run-IsBalanced}
use production_library_manag.Progress.Promotion.{Ordered, Satisfied-IsKeyed}
use production_library_manag.Progress.Returns.{return_book-Achieves}
use production_library_manag.Progress.Queue.{
  ahead, Queued, Queued-zero, promote_next_reservation-Queued,
}

module _ (env : Env) (cfg : Config) (i : ℕ) (loan : BorrowRecord)
    (out : is_returned loan.status ≡ false) where
  -- What the new row of the loan and the copy that is passed on ensure, a return ensures.
  module _ (P P' Q : Db → Type 0)
      (saved : (d : Db)
        → P d
        → Borrows.get_by_id i d ≡ some loan
        → P' (Borrows.save (returned_at env.now loan) d))
      (passed_on : Ensures P' (give_back env cfg loan.book_id) (λ _. Q)) where
    abbrev Known : Db → Type 0
    Known d = P d × (Borrows.get_by_id i d ≡ some loan)

    close_loan-Ensures : Ensures Known (close_loan env cfg loan) (λ _. Q)
    unfolding close_loan Borrows.update
    close_loan-Ensures =
        >>=-Ensures _ _
          (modify-Ensures _ (Borrows.save (returned_at env.now loan)) (λ d h. saved d h.0 h.1))
          λ _. >>=-Ensures _ _ (reads-Ensures _ _ flush-Reads) λ _. >>=-Ensures _ _ passed_on λ _.
            reads-Ensures _ _ (
              pure-Reads (
                returned_at env.now loan,
                some (calculate_fine cfg.fine_calculator loan.due_date env.now),
              ))

    close_found-Ensures :
        (r : BorrowRecord)
        → Ensures
            (λ d. Known d × (Borrows.get_by_id i d ≡ some r))
            (if is_returned r.status then pure (r, none) else close_loan env cfg r)
            (λ _. Q)
    close_found-Ensures r = record {
      on_ok = λ s h.
          let same : r ≡ loan = ground (arith, h.1, h.0.1) in
          rw (same, out) (close_loan-Ensures.on_ok s h.0);
    }

    return_book-Ensures : Ensures Known (return_book env cfg i) (λ _. Q)
    unfolding return_book return_book_body
    return_book-Ensures = transactional-Ensures _ (
        catch_operational-Ensures _ (
          >>=-Ensures _ _ (query-Ensures Known (Borrows.get_by_id i)) λ found.
            >>=-Ensures _ _ (found-Ensures (Borrows.get_by_id i) found Error.value_error)
              close_found-Ensures))

-- A loan of the book that is in the table, and out.
abbrev pub Out : ℕ → ℕ → Db → Type 0
Out book_id i d =
    (l : BorrowRecord) × (Borrows.get_by_id i d ≡ some l)
    × (l.book_id ≡ book_id)
    × (is_returned l.status ≡ false)

-- Who returns which loan, each with what the request gets from outside.
abbrev pub Visits : Type 0
Visits = List (Env × ℕ)

-- No loan is returned twice.
abbrev pub Apart : Visits → Type 0
Apart [] = Unit
Apart (v ∷ rest) = All (λ w. v.1 ≢ w.1) rest × Apart rest

-- All of the loans are out.
abbrev pub AllOut : ℕ → Visits → Db → Type 0
AllOut book_id visits d = All (λ v. Out book_id v.1 d) visits

abbrev pub returning : Visits → List (Env × Request)
returning = map λ v. (v.0, Request.return_book v.1)

module _ (book_id : ℕ) (env : Env) (i : ℕ) (loan : BorrowRecord) where
  save_other-Out :
      (d : Db) (j : ℕ)
      → Borrows.get_by_id i d ≡ some loan
      → i ≢ j
      → Out book_id j d
      → Out book_id j (Borrows.save (returned_at env.now loan) d)
  unfolding Borrows.get_by_id
  save_other-Out d j e apart (l, there, of_book, out) =
      let same = key-find i d.borrows loan e in
      let stored = subst (λ k. find k d.borrows ≡ some loan) (sym same) e in
      (
        l,
        ground (
          arith,
          there,
          same,
          apart,
          find-put (returned_at env.now loan) loan d.borrows j stored,
        ),
        of_book,
        out,
      )

  save_returned-AllOut :
      (rest : Visits) (d : Db)
      → All (λ w. i ≢ w.1) rest
      → AllOut book_id rest d
      → Borrows.get_by_id i d ≡ some loan
      → AllOut book_id rest (Borrows.save (returned_at env.now loan) d)
  save_returned-AllOut rest d apart h e =
      All-mono rest (λ w p. save_other-Out d w.1 e p.0 p.1) (All-and _ _ rest apart h)

module _ (cfg : Config) (wired : cfg.has_reservation_service ≡ true) (r : Reservation)
    (waits : is_pending r.status ≡ true) where
  -- In order, with as many waiting as copies will come back.
  abbrev Waiting : Visits → Db → Type 0
  Waiting visits d = Ordered d × Queued r waits (length visits) d × AllOut r.book_id visits d

  module _ (env : Env) (free : (l : Lock) → env.conflict l ≡ false) (i : ℕ) (rest : Visits)
      (apart : All (λ w. i ≢ w.1) rest) (loan : BorrowRecord) (of_book : loan.book_id ≡ r.book_id)
      (out : is_returned loan.status ≡ false) where
    promoted-Queued :
        Ensures
          (λ d. Queued r waits (suc (length rest)) d × IsKeyed d.reservations)
          (give_back env cfg loan.book_id)
          (λ _. Queued r waits (length rest))
    unfolding give_back
    promoted-Queued =
        rw (wired, of_book) (promote_next_reservation-Queued r waits env (length rest))

    return_book-Queued :
        Ensures
          (λ d.
            (Queued r waits (suc (length rest)) d × IsKeyed d.reservations)
            × (Borrows.get_by_id i d ≡ some loan))
          (return_book env cfg i)
          (λ _. Queued r waits (length rest))
    return_book-Queued = return_book-Ensures env cfg i loan out _ _ _ (λ d h e. h) promoted-Queued

    return_book-AllOut :
        Ensures
          (λ d. AllOut r.book_id rest d × (Borrows.get_by_id i d ≡ some loan))
          (return_book env cfg i)
          (λ _. AllOut r.book_id rest)
    unfolding Borrows.get_by_id
    return_book-AllOut =
        return_book-Ensures env cfg i loan out _ (AllOut r.book_id rest) _
          (λ d h e. save_returned-AllOut r.book_id env i loan rest d apart h e)
          ((Untouched.give_back-Preserves (AllOut r.book_id rest) (λ b d h. h) env (λ x d h. h) cfg
            loan.book_id).ensured)

    -- One return more, and one place nearer.
    respond-Waiting :
        Achieves
          (λ d.
            (Ordered d × Queued r waits (suc (length rest)) d × AllOut r.book_id rest d)
            × (Borrows.get_by_id i d ≡ some loan))
          (respond (return_book env cfg i))
          (λ _. Waiting rest)
    respond-Waiting =
        >>=-Achieves _ _
          (strengthen-Achieves _
            (λ d h. (
              (((h.0.0, h.1), h.0.0.1), ((h.0.1, Satisfied-IsKeyed d h.0.0.0), h.1)),
              (h.0.2, h.1),
            ))
            (both-Achieves _
              (both-Achieves _
                (both-Achieves _ (return_book-Achieves env free cfg i loan out)
                  (return_book-IsBalanced env cfg i))
                return_book-Queued)
              return_book-AllOut))
          (λ _. record { achieved = λ s h. ((h.0.0.0.0, h.0.0.1), h.0.1, h.1) })

  run-Waiting :
      (visits : Visits) (s : Session)
      → All (λ v. (l : Lock) → v.0.conflict l ≡ false) visits
      → Apart visits
      → Waiting visits s.db
      → Queued r waits 0 (run cfg (returning visits) s).db
  unfolding run handle
  run-Waiting [] s free apart h = h.1
  run-Waiting ((env, i) ∷ rest) s free apart h =
      let (loan, there, of_book, out) = h.2.0 in
      run-Waiting rest (respond (return_book env cfg i) s).1 free.1 apart.1 (
        Achieves-db (respond (return_book env cfg i)) s
          (respond-Waiting env free.0 i rest apart.0 loan of_book out) ((h.0, h.1, h.2.1), there))

  -- With the reservation service wired in, from a settled state whose rows satisfy the constraints
  -- of the tables and in which every copy is accounted for, when no lock is refused: once as many
  -- different loans of the book that are out are returned as there are waiting reservations for it
  -- that were not made after a given one, itself among them, the given reservation is in HOLD in
  -- what is committed.
  pub run-serves :
      (visits : Visits) (s : Session)
      → IsSettled (IsBalanced none) s
      → satisfies_constraints s.db ≡ true
      → find r.id s.db.reservations ≡ some r
      → length visits ≡ count (ahead r.book_id r.reserved_at) s.db.reservations
      → All (λ v. (l : Lock) → v.0.conflict l ≡ false) visits
      → All (λ v. Out r.book_id v.1 s.db) visits
      → Apart visits
      → (x : Reservation) × (find r.id (run cfg (returning visits) s).committed.reservations
          ≡ some x)
        × (is_hold x.status ≡ true)
  run-serves visits s settled sat there enough free out apart =
      let ended = run-IsBalanced cfg (returning visits) s settled in
      subst
        (λ d. (x : Reservation) × (find r.id d.reservations ≡ some x) × (is_hold x.status ≡ true))
        (sym ended.saved)
        (Queued-zero r waits (run cfg (returning visits) s).db (
          run-Waiting visits s free apart
            ((sat, settled.kept), (sym enough, (r, there, inl refl)), out)))
