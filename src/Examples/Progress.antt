-- ===== src/Examples/Progress.antt =====
-- The theorems on services that end normally, at the small library and at one where all is out.
use production_library_manag.Prelude.{List, ◌*◌, ◌≡◌, refl, none, some, true, [], ◌∷◌, arith, count}
use production_library_manag.Prelude.Rows.{find}
use production_library_manag.Enums.{day, is_hold}
use production_library_manag.Models.{
  BorrowRecord, Reservation, Db, satisfies_constraints, reservation_key,
}
use production_library_manag.Session.{Env, ok}
use production_library_manag.Repositories.Borrows
use production_library_manag.Repositories.Reservations
use production_library_manag.Services.Fine.{default_strategy, calculate_fine}
use production_library_manag.Services.Reservations.{process_expired_holds}
use production_library_manag.Services.Borrows.{default_config, returned_at, return_book}
use production_library_manag.Inventory.Defs.{IsBalanced, loans, holds, requests}
use production_library_manag.Requests.{Request, run}
use production_library_manag.Progress.History.{process_expired_holds-run}
use production_library_manag.Progress.Returns.{return_book-succeeds}
use production_library_manag.Progress.Waiting.{Visits, returning, run-serves}
use production_library_manag.Examples.{
  env, book, loan, held, waiting, stock, fresh, library, library-IsBalanced,
}

abbrev history : List (Env × Request)
history = (env, Request.return_book 20) ∷ (env, Request.place_reservation 1 10) ∷ []

process_expired_holds-run_example :
    ((process_expired_holds env (run default_config history (fresh library))).0
      ≡ ok (
          count
            (Reservations.is_expired_hold env.now)
            (run default_config history (fresh library)).db.reservations))
    × (count
          (Reservations.is_expired_hold env.now)
          (process_expired_holds env
            (run default_config history (fresh library))).1.committed.reservations
        ≡ 0)
    × (satisfies_constraints
          (process_expired_holds env (run default_config history (fresh library))).1.committed
        ≡ true)
    × IsBalanced none
        (process_expired_holds env (run default_config history (fresh library))).1.committed
unfolding satisfies_constraints
process_expired_holds-run_example =
    process_expired_holds-run default_config history env (fresh library) (λ l. refl)
      (record { outside = refl; saved = refl; kept = (refl, library-IsBalanced) })

return_book-succeeds_example :
    ((return_book env default_config 20 (fresh library)).0
      ≡ ok (returned_at env.now loan, some (calculate_fine default_strategy loan.due_date env.now)))
    × (Borrows.get_by_id 20 (return_book env default_config 20 (fresh library)).1.committed
        ≡ some (returned_at env.now loan))
    × (satisfies_constraints (return_book env default_config 20 (fresh library)).1.committed ≡ true)
    × IsBalanced none (return_book env default_config 20 (fresh library)).1.committed
unfolding satisfies_constraints Borrows.get_by_id
return_book-succeeds_example =
    return_book-succeeds env (λ l. refl) default_config 20 loan refl (fresh library) refl refl
      library-IsBalanced refl

abbrev second_loan : BorrowRecord
second_loan = record loan { id = 21; member_id = 2 }

-- No copy is on the shelf: two are out, one is kept, and two members wait.
abbrev busy : Db
busy =
    stock (book 3 0) (loan ∷ second_loan ∷ [])
      (held ∷ waiting 32 (9 * day) ∷ waiting 31 (6 * day) ∷ [])

abbrev visits : Visits
visits = (env, 20) ∷ (env, 21) ∷ []

busy-IsBalanced : IsBalanced none busy
unfolding loans holds requests
busy-IsBalanced = record { counted = λ i. ground arith; keyed = ground arith }

run-serves_example :
    (x : Reservation) × (find 32
        (run default_config (returning visits) (fresh busy)).committed.reservations
      ≡ some x)
    × (is_hold x.status ≡ true)
unfolding satisfies_constraints Borrows.get_by_id
run-serves_example =
    run-serves default_config refl (waiting 32 (9 * day)) refl visits (fresh busy)
      (record { outside = refl; saved = refl; kept = busy-IsBalanced }) refl refl refl
      ((λ l. refl), ((λ l. refl), tt))
      ((loan, refl, refl, refl), ((second_loan, refl, refl, refl), tt))
      ((ground arith, tt), (tt, tt))
