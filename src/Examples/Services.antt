-- ===== src/Examples/Services.antt =====
-- The theorems on single services at the small library.
use production_library_manag.Prelude.{
  ℕ, ◌+◌, ◌*◌, ◌≡◌, ◌≤◌, ◌<◌, ◌↔◌, refl, none, some, List, [], ◌∷◌, arith,
}
use production_library_manag.Enums.{day, second, ReservationStatus}
use production_library_manag.Errors.{Error}
use production_library_manag.Models.{Book, Reservation, Db, satisfies_constraints}
use production_library_manag.Session.{Session, ok, err, transactional}
use production_library_manag.Repositories.Books
use production_library_manag.Repositories.Members
use production_library_manag.Repositories.Borrows
use production_library_manag.Repositories.Reservations
use production_library_manag.Services.Fine.{default_strategy, calculate_fine}
use production_library_manag.Services.Fine.Bounds.{calculate_fine-bounds}
use production_library_manag.Services.Reservations.{
  held_until, restore_copy, promote_or_restore, promote_body, promote_next_reservation,
}
use production_library_manag.Services.Reservations.Fifo.{promote_next_reservation-fifo}
use production_library_manag.Services.Borrows.{
  default_config, new_loan, returned_at, renewed_by, renew_book, borrow_book, return_book,
  return_book_body, close_loan, give_back,
}
use production_library_manag.Services.Borrows.Outcomes.{
  MayBorrow, Checked, borrow_book-shelf, borrow_book-held, borrow_book-refused,
}
use production_library_manag.Services.Borrows.Renewals.{renew_book-renews}
use production_library_manag.Services.Borrows.Returns.{return_book-once}
use production_library_manag.Examples.{
  env, member, book, loan, held, waiting, stock, fresh, library,
}

-- Members 2 and 3 may borrow.
may_borrow :
    (i : ℕ)
    → Members.get_by_id i library ≡ some (member i)
    → Borrows.get_active_by_member_id i library ≡ []
    → Borrows.get_overdue_by_member_id_count i env.now library ≡ 0
    → (b : Book) (asked : List Reservation) → MayBorrow env default_config i (stock b [] asked)
unfolding Members.get_by_id Borrows.get_active_by_member_id Borrows.get_overdue_by_member_id_count
may_borrow i found none_out none_late b asked = record {
  member = member i;
  found = found;
  active = refl;
  none_overdue = refl;
  below_limit = ground arith;
}

passes :
    (b : Book) (asked : List Reservation)
    → Books.get_by_id 10 (stock b [] asked) ≡ some b
    → Checked env default_config (λ l. refl) 3 10 b (stock b [] asked)
unfolding Members.get_by_id Borrows.get_active_by_member_id Borrows.get_overdue_by_member_id_count
passes b asked found = (may_borrow 3 refl refl refl b asked, found)

abbrev shelf : Db
shelf = stock (book 1 1) [] []

borrow_book-shelf_example :
    ((borrow_book env default_config 3 10 (fresh shelf)).0 ≡ ok (new_loan env default_config 3 10))
    × ((borrow_book env default_config 3 10 (fresh shelf)).1.committed
        ≡ stock (book 1 0) (new_loan env default_config 3 10 ∷ []) [])
unfolding Books.get_by_id satisfies_constraints
borrow_book-shelf_example =
    borrow_book-shelf env default_config (λ l. refl) 3 10 (book 1 1) (fresh shelf) refl
      (passes (book 1 1) [] refl) refl (ground arith) refl

-- The window of this hold was over a day ago.
abbrev kept_for_3 : Reservation
kept_for_3 = record held { member_id = 3 }

abbrev kept : Db
kept = stock (book 1 0) [] (kept_for_3 ∷ [])

borrow_book-held_example :
    ((borrow_book env default_config 3 10 (fresh kept)).0 ≡ ok (new_loan env default_config 3 10))
    × ((borrow_book env default_config 3 10 (fresh kept)).1.committed
        ≡ stock
            (book 1 0)
            (new_loan env default_config 3 10 ∷ [])
            (record kept_for_3 { status = ReservationStatus.completed; expires_at = none } ∷ []))
unfolding Books.get_by_id satisfies_constraints
borrow_book-held_example =
    borrow_book-held env default_config (λ l. refl) 3 10 (book 1 0) (fresh kept) kept_for_3 refl
      (passes (book 1 0) (kept_for_3 ∷ []) refl) refl refl refl refl

-- Two copies are on the shelf, and one is kept for another member.
abbrev reserved : Db
reserved = stock (book 3 2) [] (held ∷ [])

borrow_book-refused_example :
    ((borrow_book env default_config 3 10 (fresh reserved)).0 ≡ err Error.reservation_not_held)
    × ((borrow_book env default_config 3 10 (fresh reserved)).1.db ≡ reserved)
unfolding Books.get_by_id
borrow_book-refused_example =
    borrow_book-refused env default_config (λ l. refl) 3 10 (book 3 2) (fresh reserved)
      Error.reservation_not_held refl (passes (book 3 2) (held ∷ []) refl) refl

abbrev queue : Db
queue = stock (book 3 0) [] (waiting 32 (9 * day) ∷ waiting 31 (6 * day) ∷ [])

promote_next_reservation-fifo_example :
    ((promote_next_reservation env 10 (fresh queue)).0 ≡ ok tt)
    × ((promote_next_reservation env 10 (fresh queue)).1.committed
        ≡ Reservations.save (held_until env (waiting 31 (6 * day))) queue)
    × (Reservations.compute_queue_position 10 (6 * day) queue ≡ 1)
    × (Reservations.compute_queue_position 10
            (9 * day)
            (promote_next_reservation env 10 (fresh queue)).1.committed
          + 1
        ≡ Reservations.compute_queue_position 10 (9 * day) queue)
unfolding Reservations.oldest satisfies_constraints
promote_next_reservation-fifo_example =
    promote_next_reservation-fifo env 10 (fresh queue) (waiting 31 (6 * day)) (9 * day) (λ l. refl)
      refl (ground arith) refl refl (ground arith)

abbrev after_return : Session
after_return = (return_book env default_config 20 (fresh library)).1

return_book-once_example :
    ((return_book env default_config 20 after_return).0 ≡ ok (returned_at env.now loan, none))
    × ((return_book env default_config 20 after_return).1.db ≡ after_return.db)
unfolding return_book return_book_body close_loan give_back promote_next_reservation promote_body
    Borrows.get_by_id Borrows.update calculate_fine promote_or_restore restore_copy Books.update
    Books.set_attributes Reservations.update Reservations.get_fifo_pending_by_book_id transactional
    satisfies_constraints
return_book-once_example =
    return_book-once env env default_config 20 (fresh library) after_return
      (returned_at env.now loan) (some 0) refl refl

calculate_fine-bounds_example :
    (calculate_fine default_strategy (14 * day) (16 * day) ≤ 5000)
    × (calculate_fine default_strategy (14 * day) (16 * day)
        ≤ calculate_fine default_strategy (14 * day) (20 * day))
    × ((calculate_fine default_strategy (14 * day) (16 * day) ≡ 0) ↔ (16 * day < 14 * day + second))
calculate_fine-bounds_example =
    calculate_fine-bounds default_strategy (14 * day) (16 * day) (20 * day) (omega arith)
      (omega arith) (omega arith)

renew_book-renews_example :
    ((renew_book env default_config 20 (fresh library)).0 ≡ ok (renewed_by default_config loan))
    × ((renew_book env default_config 20 (fresh library)).1.committed
        ≡ Borrows.save (renewed_by default_config loan) library)
    × (1 ≤ 2)
    × (env.now + 14 * day ≤ 38 * day)
unfolding Borrows.get_by_id satisfies_constraints
renew_book-renews_example =
    renew_book-renews env default_config 20 loan (fresh library) refl refl refl (omega arith) refl
      (omega arith) refl
