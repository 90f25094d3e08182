-- ===== src/Inventory/Defs.antt =====
-- The accounting of copies across the services: each copy of a book that is not deleted is on the
-- shelf, out on loan, or kept for a member whose reservation is in HOLD.
use production_library_manag.Prelude.{
  ℕ, ◌+◌, ◌≡◌, Option, none, some, Bool, false, ◌==◌, if◌then◌else◌, count,
}
use production_library_manag.Prelude.Rows.{find, IsKeyed}
use production_library_manag.Services.Reservations.{is_loan_of}
use production_library_manag.Services.Borrows.{is_hold_for}
use production_library_manag.Models.{Book, Reservation, Db, book_key, reservation_key}

abbrev pub is_for : ℕ → Reservation → Bool
is_for i r = r.book_id == i

unfoldable pub loans : ℕ → Db → ℕ
loans i d = count (is_loan_of i) d.borrows

unfoldable pub holds : ℕ → Db → ℕ
holds i d = count (is_hold_for i) d.reservations

unfoldable pub requests : ℕ → Db → ℕ
requests i d = count (is_for i) d.reservations

-- While a service runs, it may have one copy of one book in hand: taken from a place and not yet
-- put into another.
abbrev pub in_hand : Option ℕ → ℕ → ℕ
in_hand none i = 0
in_hand (some j) i = if j == i then 1 else 0

-- What is counted of a book, by its row in the table; no loan or reservation is of a book that
-- is not in the table.
abbrev pub Counts : Option Book → (out kept asked hand : ℕ) → Type 0
Counts none out kept asked hand = (out ≡ 0) × (asked ≡ 0)
Counts (some b) out kept asked hand =
    b.is_deleted ≡ false → b.available_copies + out + kept + hand ≡ b.total_copies

-- Every book is accounted for, with the copy in hand, and reservations have distinct ids.
pub record IsBalanced (hand : Option ℕ) (d : Db) : Type 0 where
  pub counted :
      (i : ℕ) → Counts (find i d.books) (loans i d) (holds i d) (requests i d) (in_hand hand i)
  pub keyed : IsKeyed d.reservations
