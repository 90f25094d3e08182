-- ===== src/Limits/Placing.antt =====
-- `place_reservation` keeps the limits on active reservations.
use production_library_manag.Prelude.{
  ℕ, ◌≡◌, ◌<◌, refl, sym, ◌∙◌, Option, none, some, false, List, [], ◌∷◌, arith, count, length,
  length-select, leb, ltb, select, any,
}
use production_library_manag.Prelude.Rows.{IsKeyed, distinct_keys-IsKeyed}
use production_library_manag.Enums.{max_active_reservations}
use production_library_manag.Errors.{Error}
use production_library_manag.Models.{Book, Reservation, Db, reservation_key, satisfies_constraints}
use production_library_manag.Session.{
  Env, ok, scalar_one_or_none, query, raise_if, flush, ◌>>=◌, ◌>>◌,
}
use production_library_manag.Session.Logic.{
  Ensures, reads-Ensures, query-Ensures, query_one-Ensures, raise_if-Ensures, modify-Ensures,
  >>=-Ensures, weaken-Ensures, flush-Ensures, transactional-Ensures, raise_if-Reads, or_raise-Reads,
  observe-Reads, pure-Reads, >>-Reads,
}
use production_library_manag.Session.Preserve.{Preserves, preserves}
use production_library_manag.Repositories.Members
use production_library_manag.Repositories.Borrows
use production_library_manag.Repositories.Reservations
use production_library_manag.Services.Reservations.{
  is_loan_of, is_some, check_member, check_request, new_reservation, count_reservation,
  place_reservation_body, place_reservation,
}
use production_library_manag.Limits.Untouched
use production_library_manag.Limits.Queue.{
  Orderly, is_active_of, is_active_for, place-RequestsWithin,
}

none-length :
    {A : Type 0} (rows : List A) (o : Option A)
    → scalar_one_or_none rows ≡ ok o
    → is_some o ≡ false
    → length rows ≡ 0
none-length [] o e h = refl
none-length (x ∷ []) none e h = cc
none-length (x ∷ []) (some y) e h = cc
none-length (x ∷ y ∷ rest) o e h = cc

module _ (env : Env) (member_id i : ℕ) where
  -- There is room for one more reservation of the member, and none for the book.
  abbrev Room : Db → Type 0
  Room d =
      Orderly d
      × (count (is_active_of member_id) d.reservations < max_active_reservations)
      × (count (is_active_for member_id i) d.reservations ≡ 0)

  -- The end of the checks, which only read.
  late_checks-Preserves :
      (P : Db → Type 0)
      → Preserves P (do
        member ← Members.get_by_id_for_update env member_id
        check_member member
        history ← query (Borrows.get_history_by_member_id member_id 0 20)
        raise_if (any (is_loan_of i) history) Error.book_already_borrowed)
  late_checks-Preserves P =
      search (preserves, Untouched.get_member-Preserves, Untouched.check_member-Preserves) depth 12

  abbrev Counted : ℕ → Db → Type 0
  Counted n d = Orderly d × (n ≡ Reservations.get_active_by_member_id_count member_id d)

  abbrev Single : Db → Option Reservation → Type 0
  Single d o = scalar_one_or_none (select (is_active_for member_id i) d.reservations) ≡ ok o

  room :
      (d : Db) (n : ℕ) (o : Option Reservation)
      → Counted n d
      → leb max_active_reservations n ≡ false
      → Single d o
      → is_some o ≡ false
      → Room d
  unfolding Reservations.get_active_by_member_id_count
  room d n o counted below single absent = (
    counted.0,
    ground (arith, counted.1),
    sym (length-select (is_active_for member_id i) d.reservations)
        ∙ none-length (select (is_active_for member_id i) d.reservations) o single absent,
  )

  check_request-Room :
      (book : Book) → Ensures Orderly (check_request env member_id i book) (λ _. Room)
  unfolding check_request Reservations.get_active_by_member_and_book
  check_request-Room book =
      >>=-Ensures _ _
        (reads-Ensures _ _ (raise_if-Reads (ltb 0 book.available_copies) Error.value_error))
        λ _.
          >>=-Ensures _ _
            (query-Ensures Orderly (Reservations.get_active_by_member_id_count member_id))
            λ n.
              >>=-Ensures _ _
                (raise_if-Ensures (Counted n) (leb max_active_reservations n)
                  Error.reservation_limit_exceeded)
                λ _.
                  >>=-Ensures _ _
                    (query_one-Ensures _ (λ d. select (is_active_for member_id i) d.reservations))
                    λ o.
                      >>=-Ensures _ _
                        (weaken-Ensures _ (raise_if-Ensures _ (is_some o) Error.already_reserved)
                          (λ _ d h. room d n o h.0.0.0 h.0.0.1 h.0.1 h.1))
                        (λ _. (late_checks-Preserves Room).ensured)

  -- The rows once the reservation is added, before the database has looked at its key.
  abbrev Added : Db → Type 0
  Added d = IsKeyed d.reservations → Orderly d

  create-Added : Ensures Room (Reservations.create (new_reservation env member_id i)) (λ _. Added)
  unfolding Reservations.create
  create-Added = modify-Ensures _ _ λ d h keyed.
      place-RequestsWithin (new_reservation env member_id i) d.reservations h.0 h.1 h.2 keyed

  flushed-Orderly : Ensures Added flush (λ _. Orderly)
  unfolding satisfies_constraints
  flushed-Orderly =
      weaken-Ensures _ (flush-Ensures Added)
        (λ _ d h. h.0 (distinct_keys-IsKeyed d.reservations (ground (arith, h.1))))

  place_body-Orderly : Ensures Orderly (place_reservation_body env member_id i) (λ _. Orderly)
  unfolding place_reservation_body
  place_body-Orderly = >>=-Ensures _ _ ((Untouched.get_book-Preserves _ env i).ensured) λ found.
      >>=-Ensures _ _ (reads-Ensures _ _ (or_raise-Reads found Error.book_not_found)) λ book.
        >>=-Ensures _ _ (reads-Ensures _ _ (raise_if-Reads book.is_deleted Error.book_not_found))
          λ _. >>=-Ensures _ _ (check_request-Room book) λ _. >>=-Ensures _ _ create-Added λ _.
            >>=-Ensures _ _ flushed-Orderly λ _. reads-Ensures _ _ (
              >>-Reads _ _ (observe-Reads count_reservation)
                (pure-Reads (new_reservation env member_id i)))

  pub place-Orderly : Preserves Orderly (place_reservation env member_id i)
  unfolding place_reservation
  place-Orderly = record { ensured = transactional-Ensures _ place_body-Orderly }
