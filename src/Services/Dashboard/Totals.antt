-- ===== src/Services/Dashboard/Totals.antt =====
-- What the inventory figures leave out.
use production_library_manag.Prelude.{
  ℕ, ◌+◌, ◌≡◌, refl, sym, none, some, Bool, false, ◌&&◌, not, List, [], ◌∷◌, arith, count,
  count-split, count-none, count_cong, sum_of, sum_of-add, All-mono, All-true, select, ◌==◌,
  Bool-cases, inl, inr,
}
use production_library_manag.Prelude.Rows.{find, IsKeyed, select-find}
use production_library_manag.Enums.{is_out, is_hold}
use production_library_manag.Models.{Book, Db, book_key}
use production_library_manag.Repositories.Dashboard.{live_books, get_inventory_summary}
use production_library_manag.Inventory.Defs.{IsBalanced, loans, holds}

-- The book is in the table and not deleted.
abbrev pub is_live : List Book → ℕ → Bool
is_live books i = elim (find i books) [ none ↦ false | some b ↦ not b.is_deleted ]

module _ {A : Type 0} (book_of : A → ℕ) (counts : A → Bool) (rows : List A) where
  abbrev of_book : ℕ → ℕ
  of_book i = count (λ r. book_of r == i && counts r) rows

  -- Summed over the live books, the rows of each are the rows of live books.
  by_book :
      (books : List Book)
      → IsKeyed books
      → sum_of (λ b. of_book b.id) (select (λ b. not b.is_deleted) books)
        ≡ count (λ r. is_live books (book_of r) && counts r) rows
  by_book [] h = sym (count-none _ rows (λ r. refl))
  by_book (b ∷ books) h = elim (Bool-cases b.is_deleted) [
    | inl gone ↦
        let same =
          count_cong (λ r. is_live books (book_of r) && counts r)
            (λ r. is_live (b ∷ books) (book_of r) && counts r) rows
            (λ r. ground (arith, gone, h.0)) in
        ground (arith, gone, same, by_book books h.1)
    | inr live ↦
        let split =
          count-split (λ r. book_of r == b.id && counts r)
            (λ r. is_live books (book_of r) && counts r)
            (λ r. is_live (b ∷ books) (book_of r) && counts r) rows
            (λ r. ground (arith, live, h.0)) in
        ground (arith, live, split, by_book books h.1)
  ]

module _ (d : Db) (balanced : IsBalanced none d) (keyed : IsKeyed d.books) where
  each_adds_up :
      (b : Book)
      → find b.id d.books ≡ some b
      → b.is_deleted ≡ false
      → b.total_copies ≡ b.available_copies + (loans b.id d + holds b.id d)
  each_adds_up b there live = omega (arith, (rw there at (balanced.counted b.id)) live)

  sum_adds_up :
      sum_of (λ b. b.total_copies) (live_books d)
      ≡ sum_of (λ b. b.available_copies) (live_books d)
        + (sum_of (λ b. loans b.id d) (live_books d) + sum_of (λ b. holds b.id d) (live_books d))
  sum_adds_up =
      let found = select-find (λ b. not b.is_deleted) d.books keyed in
      omega (
        arith,
        sum_of-add (λ b. b.total_copies) (λ b. b.available_copies)
            (λ b. loans b.id d + holds b.id d) (live_books d)
            (All-mono (live_books d) (λ b e. each_adds_up b e.0 (ground (arith, e.1))) found),
        sum_of-add (λ b. loans b.id d + holds b.id d) (λ b. loans b.id d) (λ b. holds b.id d)
            (live_books d) (All-true _ (live_books d) (λ b. refl)),
      )

-- When every copy is accounted for and books have distinct ids, the dashboard's total of copies is
-- what it reports on the shelf and checked out, but for two things that it does not report: the
-- copies that are kept for HOLD reservations are missing from the sum, and the loans of deleted
-- books are too many.
pub get_inventory_summary-adds_up :
    (d : Db)
    → IsBalanced none d
    → IsKeyed d.books
    → (get_inventory_summary d).total_copies
        + count (λ r. not (is_live d.books r.book_id) && is_out r.status) d.borrows
      ≡ (get_inventory_summary d).available_copies
        + (get_inventory_summary d).checked_out_copies
        + count (λ r. is_live d.books r.book_id && is_hold r.status) d.reservations
unfolding get_inventory_summary loans holds
get_inventory_summary-adds_up d balanced keyed = omega (
  arith,
  sum_adds_up d balanced keyed,
  by_book (λ r. r.book_id) (λ r. is_out r.status) d.borrows d.books keyed,
  by_book (λ r. r.book_id) (λ r. is_hold r.status) d.reservations d.books keyed,
  count-split (λ r. is_live d.books r.book_id && is_out r.status)
      (λ r. not (is_live d.books r.book_id) && is_out r.status) (λ r. is_out r.status) d.borrows
      (λ r. ground arith),
)
