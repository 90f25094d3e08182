-- ===== src/Services/Dashboard.antt =====
-- DashboardService of app/services/dashboard_service.py. The time that the queries take is only logged.
pub mod Popular
pub mod Totals
pub mod Figures
use production_library_manag.Prelude.{ℕ, ◌+◌, List, sum_of}
use production_library_manag.Session.{M, Env, Metrics, query, observe, pure, ◌>>=◌, ◌>>◌}
use production_library_manag.Repositories.Dashboard.{
  Sql, InventorySummary, MemberSummary, ReservationSummary, OverdueSummary, PopularBook, Velocity,
  get_inventory_summary, get_member_summary, get_reservation_summary, get_overdue_summary,
  get_popular_books, get_borrow_velocity,
}

pub record Summary : Type 0 where
  pub inventory : InventorySummary
  pub total_borrows_in_window : ℕ
  pub borrowing_velocity : Velocity
  pub members : MemberSummary
  pub reservations : ReservationSummary
  pub overdue : OverdueSummary
  pub popular_books : List PopularBook
  pub generated_at : ℕ

abbrev pub count_dashboard : Metrics → Metrics
count_dashboard m = record m { dashboard_requests = m.dashboard_requests + 1 }

unfoldable pub get_summary : Sql → Env → ℕ → M Summary
get_summary sql env days = do
  observe count_dashboard
  inventory ← query get_inventory_summary
  members ← query get_member_summary
  reservations ← query (get_reservation_summary sql env.now)
  overdue ← query (get_overdue_summary sql env.now)
  popular_books ← query (get_popular_books sql env.now days)
  velocity ← query (get_borrow_velocity env.now)
  pure (record {
    inventory = inventory;
    total_borrows_in_window = sum_of (λ b. b.checkout_count) popular_books;
    borrowing_velocity = velocity;
    members = members;
    reservations = reservations;
    overdue = overdue;
    popular_books = popular_books;
    generated_at = env.now;
  })
