-- ===== src/Services/Dashboard/Figures.antt =====
-- How the dashboard's figures on loans fit together.
use production_library_manag.Prelude.{
  ℕ, ◌-◌, ◌*◌, ◌≡◌, ◌≤◌, refl, true, List, arith, count, count_mono, length, length-select, select,
  if◌then◌else◌,
}
use production_library_manag.Enums.{BorrowStatus, is_out, is_open, is_overdue, day}
use production_library_manag.Models.{BorrowRecord, Db, book_key}
use production_library_manag.Repositories.Dashboard.{
  Sql, is_late, get_inventory_summary, get_overdue_summary, get_borrow_velocity, start_of_day,
  borrowed_since,
}

-- A late loan is out.
late-out : (now : ℕ) (r : BorrowRecord) → is_late now r ≡ true → is_out r.status ≡ true
late-out now r h = status_out r.status (ground arith)
  where
    status_out :
        (s : BorrowStatus) → (if is_overdue s then true else is_open s) ≡ true → is_out s ≡ true
    status_out BorrowStatus.borrowed h = refl
    status_out BorrowStatus.returned h = cc
    status_out BorrowStatus.renewed h = refl
    status_out BorrowStatus.overdue h = refl

late-le :
    (now : ℕ) (rows : List BorrowRecord)
    → length (select (is_late now) rows) ≤ count (λ r. is_out r.status) rows
late-le now rows = omega (
  arith,
  length-select (is_late now) rows,
  count_mono (is_late now) (λ r. is_out r.status) rows (late-out now),
)

module _ (sql : Sql) (now : ℕ) (d : Db) where
  -- If rounding a quotient of at most one gives at most one, no more loans are late than checked
  -- out, their ratio is at most one, and the loans of today are among those of a week, which are
  -- among those of a month.
  pub figures_fit :
      ((n m : ℕ) → n ≤ m → sql.round_quotient 4 n m ≤ 10000)
      → ((get_overdue_summary sql now d).late_count ≤ (get_inventory_summary d).checked_out_copies)
        × ((get_overdue_summary sql now d).ratio ≤ 10000)
        × ((get_borrow_velocity now d).today ≤ (get_borrow_velocity now d).last_7_days)
        × ((get_borrow_velocity now d).last_7_days ≤ (get_borrow_velocity now d).last_30_days)
  unfolding get_overdue_summary get_inventory_summary get_borrow_velocity
  figures_fit rounds = (
    late-le now d.borrows,
    ground (
      arith,
      rounds (length (select (is_late now) d.borrows)) (count (λ r. is_out r.status) d.borrows),
      late-le now d.borrows,
    ),
    count_mono (borrowed_since (start_of_day now)) (borrowed_since (now - 7 * day)) d.borrows
        (λ r h. ground arith),
    count_mono (borrowed_since (now - 7 * day)) (borrowed_since (now - 30 * day)) d.borrows
        (λ r h. ground arith),
  )
