-- ===== src/Repositories/Borrows.antt =====
-- app/repositories/borrow_repository.py.
use production_library_manag.Prelude.{
  ℕ, Option, ◌&&◌, List, [], ◌∷◌, if◌then◌else◌, select, count, ltb, leb, ◌==◌,
}
use production_library_manag.Prelude.Rows.{find, put, insert}
use production_library_manag.Enums.{BorrowStatus, is_open, same_status}
use production_library_manag.Models.{BorrowRecord, Db, borrow_key}
use production_library_manag.Session.{M, modify}
use production_library_manag.Repositories.Base.{page_of}

unfoldable pub get_by_id : ℕ → Db → Option BorrowRecord
get_by_id i d = find i d.borrows

unfoldable pub get_active_by_member_id : ℕ → Db → List BorrowRecord
get_active_by_member_id member d = select (λ r. r.member_id == member && is_open r.status) d.borrows

unfoldable pub get_all_by_status : BorrowStatus → ℕ → ℕ → Db → List BorrowRecord
get_all_by_status status skip limit d =
    page_of skip limit (select (λ r. same_status r.status status) d.borrows)

unfoldable pub get_overdue_by_member_id_count : ℕ → ℕ → Db → ℕ
get_overdue_by_member_id_count member now d =
    count (λ r. r.member_id == member && is_open r.status && ltb r.due_date now) d.borrows

-- `order_by(borrow_date.desc())`, as a stable insertion sort: rows of one date keep their order.
abbrev insert_newest : BorrowRecord → List BorrowRecord → List BorrowRecord
insert_newest r [] = r ∷ []
insert_newest r (x ∷ xs) =
    if leb x.borrow_date r.borrow_date then r ∷ x ∷ xs else x ∷ insert_newest r xs

unfoldable pub newest_first : List BorrowRecord → List BorrowRecord
newest_first [] = []
newest_first (r ∷ rs) = insert_newest r (newest_first rs)

unfoldable pub get_history_by_member_id : ℕ → ℕ → ℕ → Db → List BorrowRecord
unfolding newest_first
get_history_by_member_id member skip limit d =
    page_of skip limit (newest_first (select (λ r. r.member_id == member) d.borrows))

abbrev pub save : BorrowRecord → Db → Db
save r d = record d { borrows = put r d.borrows }

unfoldable pub update : BorrowRecord → M (Unit {0})
update r = modify (save r)

abbrev pub added : BorrowRecord → Db → Db
added r d = record d { borrows = insert r d.borrows }

unfoldable pub create : BorrowRecord → M (Unit {0})
create r = modify (added r)
