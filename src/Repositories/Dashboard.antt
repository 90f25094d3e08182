-- ===== src/Repositories/Dashboard.antt =====
-- app/repositories/dashboard_repository.py: aggregates over the tables.
use production_library_manag.Prelude.{
  ℕ, ◌-◌, ◌*◌, ◌%◌, Option, none, some, Bool, true, false, ◌&&◌, ◌||◌, not, List, [], ◌∷◌, String,
  map, take, length, select, count, sum_of, ltb, leb, ◌==◌, if◌then◌else◌,
}
use production_library_manag.Prelude.Int.{ℤ, pos, pos_part}
use production_library_manag.Enums.{
  is_out, is_open, is_active_member, is_suspended, is_pending, is_hold, is_expired, is_overdue, day,
}
use production_library_manag.Models.{Book, Member, BorrowRecord, Db}

-- What the aggregates take from the database and from Python: AVG (in ten-thousandths, NULL for no
-- rows), TIMESTAMPDIFF in days, the collation's order of titles, `round` of a quotient to some
-- digits (in units of the last), and when the row of a reservation was last written, which the
-- mapper records.
pub record Sql : Type 0 where
  pub average : List ℤ → Option ℤ
  pub timestampdiff_days : (from to : ℕ) → ℤ
  pub title_le : Option String → Option String → Bool
  pub round_quotient : (digits numerator denominator : ℕ) → ℕ
  pub updated_at : (reservation_id : ℕ) → ℕ

pub record InventorySummary : Type 0 where
  pub total_titles : ℕ
  pub total_copies : ℕ
  pub checked_out_copies : ℕ
  pub available_copies : ℕ

abbrev pub live_books : Db → List Book
live_books d = select (λ b. not b.is_deleted) d.books

unfoldable pub get_inventory_summary : Db → InventorySummary
get_inventory_summary d = record {
  total_titles = length (live_books d);
  total_copies = sum_of (λ b. b.total_copies) (live_books d);
  checked_out_copies = count (λ r. is_out r.status) d.borrows;
  available_copies = sum_of (λ b. b.available_copies) (live_books d);
}

pub record MemberSummary : Type 0 where
  pub active_count : ℕ
  pub suspended_count : ℕ

abbrev pub live_members : Db → List Member
live_members d = select (λ m. not m.is_deleted) d.members

unfoldable pub get_member_summary : Db → MemberSummary
get_member_summary d = record {
  active_count = count (λ m. is_active_member m.membership_status) (live_members d);
  suspended_count = count (λ m. is_suspended m.membership_status) (live_members d);
}

-- Midnight, of instants that count from a midnight.
abbrev pub start_of_day : ℕ → ℕ
start_of_day now = now - now % day

pub record ReservationSummary : Type 0 where
  pub pending : ℕ
  pub hold : ℕ
  pub expired_today : ℕ

unfoldable pub get_reservation_summary : Sql → ℕ → Db → ReservationSummary
get_reservation_summary sql now d = record {
  pending = count (λ r. is_pending r.status) d.reservations;
  hold = count (λ r. is_hold r.status) d.reservations;
  expired_today =
      count (λ r. is_expired r.status && leb (start_of_day now) (sql.updated_at r.id))
        d.reservations;
}

-- Marked OVERDUE, or open and past its date.
abbrev pub is_late : ℕ → BorrowRecord → Bool
is_late now r = is_overdue r.status || (is_open r.status && ltb r.due_date now)

pub record OverdueSummary : Type 0 where
  pub late_count : ℕ
  -- in ten-thousandths
  pub ratio : ℕ
  -- in hundredths
  pub average_days_overdue : ℕ

-- `coalesce(avg(…), 0.0)`
abbrev coalesce : Option ℤ → ℤ
coalesce none = pos 0
coalesce (some a) = a

unfoldable pub get_overdue_summary : Sql → ℕ → Db → OverdueSummary
get_overdue_summary sql now d =
    let total_active = count (λ r. is_out r.status) d.borrows in
    let late = select (is_late now) d.borrows in
    let avg_days = coalesce (sql.average (map (λ r. sql.timestampdiff_days r.due_date now) late)) in
    record {
      late_count = length late;
      ratio = if ltb 0 total_active then sql.round_quotient 4 (length late) total_active else 0;
      average_days_overdue = sql.round_quotient 2 (pos_part avg_days) 10000;
    }

pub record PopularBook : Type 0 where
  pub book_id : ℕ
  pub title : Option String
  pub author : Option String
  pub checkout_count : ℕ

-- The loans of a book since some instant, and the group of its joined rows.
abbrev pub is_recent_loan_of : ℕ → ℕ → BorrowRecord → Bool
is_recent_loan_of start i r = r.book_id == i && leb start r.borrow_date

abbrev pub group_of : ℕ → Db → Book → PopularBook
group_of start d b = record {
  book_id = b.id;
  title = b.title;
  author = b.author;
  checkout_count = count (is_recent_loan_of start b.id) d.borrows;
}

-- An inner join has no group for a book without loans.
unfoldable pub popular_groups : ℕ → Db → List PopularBook
popular_groups start d =
    select (λ g. ltb 0 g.checkout_count) (map (group_of start d) (live_books d))

-- `ORDER BY checkout_count DESC, title`: what does not come after.
abbrev pub ranks_before : Sql → PopularBook → PopularBook → Bool
ranks_before sql a b =
    if ltb b.checkout_count a.checkout_count
    then true
    else if ltb a.checkout_count b.checkout_count
    then false
    else sql.title_le a.title b.title

abbrev pub insert_ranked : Sql → PopularBook → List PopularBook → List PopularBook
insert_ranked sql a [] = a ∷ []
insert_ranked sql a (b ∷ rest) =
    if ranks_before sql a b then a ∷ b ∷ rest else b ∷ insert_ranked sql a rest

unfoldable pub ranked : Sql → List PopularBook → List PopularBook
ranked sql [] = []
ranked sql (a ∷ rest) = insert_ranked sql a (ranked sql rest)

unfoldable pub get_popular_books : Sql → ℕ → ℕ → Db → List PopularBook
unfolding popular_groups ranked
get_popular_books sql now days d = take 5 (ranked sql (popular_groups (now - days * day) d))

pub record Velocity : Type 0 where
  pub today : ℕ
  pub last_7_days : ℕ
  pub last_30_days : ℕ

abbrev pub borrowed_since : ℕ → BorrowRecord → Bool
borrowed_since start r = leb start r.borrow_date

unfoldable pub get_borrow_velocity : ℕ → Db → Velocity
get_borrow_velocity now d = record {
  today = count (borrowed_since (start_of_day now)) d.borrows;
  last_7_days = count (borrowed_since (now - 7 * day)) d.borrows;
  last_30_days = count (borrowed_since (now - 30 * day)) d.borrows;
}
