-- ===== src/Services/Borrows/Renewals.antt =====
-- When a loan is renewed.
use production_library_manag.Prelude.{
  ℕ, ◌+◌, ◌*◌, ◌≡◌, ◌≤◌, ◌<◌, refl, some, true, false, arith, leb, ltb,
}
use production_library_manag.Enums.{is_returned, day, max_renewals}
use production_library_manag.Models.{BorrowRecord, satisfies_constraints}
use production_library_manag.Session.{Env, Session, ok, transactional}
use production_library_manag.Repositories.Borrows
use production_library_manag.Services.Borrows.{
  Config, renewed_by, check_renewal, renew_book_body, renew_book,
}

module _ (env : Env) (cfg : Config) (i : ℕ) (r : BorrowRecord) where
  -- A loan that is out, has been renewed less than twice, is not past its date and that the policy
  -- does not block is renewed, if the database accepts the row: it is committed with a date that is at
  -- least one renewal period away, and with one more renewal, of which there are then two at most.
  pub renew_book-renews :
      (s : Session)
      → s.depth ≡ 0
      → Borrows.get_by_id i s.db ≡ some r
      → is_returned r.status ≡ false
      → r.renewal_count < max_renewals
      → cfg.has_pending_reservations r.member_id r.book_id ≡ false
      → env.now ≤ r.due_date
      → satisfies_constraints (Borrows.save (renewed_by cfg r) s.db) ≡ true
      → ((renew_book env cfg i s).0 ≡ ok (renewed_by cfg r))
        × ((renew_book env cfg i s).1.committed ≡ Borrows.save (renewed_by cfg r) s.db)
        × ((renewed_by cfg r).renewal_count ≤ max_renewals)
        × (env.now + cfg.renewal_days * day ≤ (renewed_by cfg r).due_date)
  unfolding renew_book renew_book_body check_renewal transactional Borrows.update
  renew_book-renews s outside there out few free in_time accepted =
      let below : leb max_renewals r.renewal_count ≡ false = ground arith in
      let current : ltb r.due_date env.now ≡ false = ground arith in
      simp (outside, there, out, below, free, current, accepted)
        (refl, refl, omega arith, omega arith)
