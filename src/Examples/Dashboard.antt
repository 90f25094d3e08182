-- ===== src/Examples/Dashboard.antt =====
-- The theorems on the dashboard, at the small library.
use production_library_manag.Prelude.{
  ℕ, ◌+◌, ◌-◌, ◌*◌, ◌/◌, ◌≡◌, ◌≤◌, none, Bool, true, not, ◌&&◌, List, min, count, length, All,
  arith,
}
use production_library_manag.Prelude.Int.{pos}
use production_library_manag.Enums.{day, is_out, is_hold}
use production_library_manag.Models.{book_key}
use production_library_manag.Repositories.Dashboard.{
  Sql, PopularBook, get_popular_books, popular_groups, get_inventory_summary,
}
use production_library_manag.Services.Dashboard.Popular.{IsDescending, get_popular_books-top}
use production_library_manag.Services.Dashboard.Totals.{is_live, get_inventory_summary-adds_up}
use production_library_manag.Examples.{env, library, library-IsBalanced}

abbrev pub sql : Sql
sql = record {
  average = λ days. none;
  timestampdiff_days = λ from to. pos ((to - from) / day);
  title_le = λ a b. true;
  round_quotient = λ digits n m. min (n * 10000 / m) 10000;
  updated_at = λ i. 0;
}

get_popular_books-top_example :
    (length (get_popular_books sql env.now 30 library) ≤ 5)
    × IsDescending (get_popular_books sql env.now 30 library)
    × ((rest : List PopularBook) × ((p : PopularBook → Bool)
          → count p (get_popular_books sql env.now 30 library) + count p rest
            ≡ count p (popular_groups (env.now - 30 * day) library))
        × All
            (λ b.
              All
                (λ a. b.checkout_count ≤ a.checkout_count)
                (get_popular_books sql env.now 30 library))
            rest)
get_popular_books-top_example = get_popular_books-top sql env.now 30 library

get_inventory_summary-adds_up_example :
    (get_inventory_summary library).total_copies
      + count (λ r. not (is_live library.books r.book_id) && is_out r.status) library.borrows
    ≡ (get_inventory_summary library).available_copies
      + (get_inventory_summary library).checked_out_copies
      + count (λ r. is_live library.books r.book_id && is_hold r.status) library.reservations
get_inventory_summary-adds_up_example =
    get_inventory_summary-adds_up library library-IsBalanced (ground arith)

rounds : (n m : ℕ) → n ≤ m → sql.round_quotient 4 n m ≤ 10000
rounds n m h = omega arith
