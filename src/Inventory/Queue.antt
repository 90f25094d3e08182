-- ===== src/Inventory/Queue.antt =====
-- `place_reservation`, `cancel_reservation` and the sweep of expired holds keep the accounts.
use production_library_manag.Prelude.{
  ℕ, ◌≡◌, refl, sym, subst, Option, none, some, true, arith, not, ◌==◌, if◌then◌else◌, Bool-cases,
  inl, inr,
}
use production_library_manag.Prelude.Rows.{find, key-find, IsKeyed, distinct_keys-IsKeyed}
use production_library_manag.Enums.{ReservationStatus, is_hold, is_active_reservation}
use production_library_manag.Errors.{Error}
use production_library_manag.Models.{
  Book, Member, Reservation, Db, reservation_key, book_key, satisfies_constraints,
}
use production_library_manag.Session.{Env, flush}
use production_library_manag.Session.Logic.{
  Ensures, Reads, reads, reads-Ensures, raise_if-Reads, flush-Reads, flush-Ensures, pure-Reads,
  observe-Reads, modify-Ensures, found-Ensures, >>=-Ensures, >>-Reads, weaken-Ensures,
  transactional-Ensures,
}
use production_library_manag.Repositories.Books
use production_library_manag.Repositories.Reservations
use production_library_manag.Repositories.Selection.{
  get_by_id-eq-some, get_book-Ensures, get_reservation-Ensures,
}
use production_library_manag.Services.Reservations.{
  check_member, check_request, new_reservation, count_reservation, place_reservation_body,
  place_reservation, closed_as, promote_if, cancel_reservation_body, cancel_reservation,
}
use production_library_manag.Inventory.Defs.{IsBalanced}
use production_library_manag.Inventory.Rows.{place-IsBalanced, release-IsBalanced, wait-IsBalanced}
use production_library_manag.Inventory.Promotion.{promote_next_reservation-IsBalanced}
use production_library_manag.Inventory.Lending.{get_member-Reads}

check_member-Reads : (m : Option Member) → Reads (check_member m)
unfolding check_member
check_member-Reads none = search reads
check_member-Reads (some m) = search reads

satisfied-IsKeyed : (d : Db) → satisfies_constraints d ≡ true → IsKeyed d.reservations
unfolding satisfies_constraints
satisfied-IsKeyed d h = distinct_keys-IsKeyed d.reservations (ground arith)

module _ (env : Env) (member_id i : ℕ) where
  -- The book of the new reservation is in the table.
  abbrev Listed : Db → Type 0
  Listed d = IsBalanced none d × ((b : Book) × (find i d.books ≡ some b))

  -- The rows once the reservation is added, before the database has looked at its key.
  abbrev Added : Db → Type 0
  Added d = IsKeyed d.reservations → IsBalanced none d

  create-IsBalanced :
      Ensures Listed (Reservations.create (new_reservation env member_id i)) (λ _. Added)
  unfolding Reservations.create
  create-IsBalanced =
      modify-Ensures _ _
        λ d h keyed. place-IsBalanced d h.1.0 (new_reservation env member_id i) h.0 h.1.1 refl keyed

  flushed-IsBalanced : Ensures Added flush (λ _. IsBalanced none)
  flushed-IsBalanced =
      weaken-Ensures _ (flush-Ensures Added) (λ _ d h. h.0 (satisfied-IsKeyed d h.1))

  check_request-Reads : (book : Book) → Reads (check_request env member_id i book)
  unfolding check_request Reservations.get_active_by_member_and_book
  check_request-Reads book = search (reads, check_member-Reads, get_member-Reads) depth 20

  check-Listed :
      (book : Book)
      → Ensures
          (λ d. IsBalanced none d × (Books.get_by_id i d ≡ some book))
          (check_request env member_id i book)
          (λ _. Listed)
  check-Listed book =
      weaken-Ensures _ (reads-Ensures _ _ (check_request-Reads book))
        (λ _ d h. (h.0, (book, (get_by_id-eq-some i d h.1).0)))

  place_reservation_body-IsBalanced :
      Ensures (IsBalanced none) (place_reservation_body env member_id i) (λ _. IsBalanced none)
  unfolding place_reservation_body
  place_reservation_body-IsBalanced = >>=-Ensures _ _ (get_book-Ensures _ env i) λ found.
      >>=-Ensures _ _ (found-Ensures (Books.get_by_id i) found Error.book_not_found) λ book.
        >>=-Ensures _ _ (reads-Ensures _ _ (raise_if-Reads book.is_deleted Error.book_not_found))
          λ _. >>=-Ensures _ _ (check-Listed book) λ _. >>=-Ensures _ _ create-IsBalanced λ _.
            >>=-Ensures _ _ flushed-IsBalanced λ _. reads-Ensures _ _ (
              >>-Reads _ _ (observe-Reads count_reservation)
                (pure-Reads (new_reservation env member_id i)))

  -- A reservation that is placed keeps every copy accounted for.
  pub place_reservation-IsBalanced :
      Ensures (IsBalanced none) (place_reservation env member_id i) (λ _. IsBalanced none)
  unfolding place_reservation
  place_reservation-IsBalanced = transactional-Ensures _ place_reservation_body-IsBalanced

module _ (env : Env) (member_id i : ℕ) where
  abbrev Requested : Reservation → Db → Type 0
  Requested res d = IsBalanced none d × (find i d.reservations ≡ some res)

  -- What is in hand once a reservation is cancelled.
  abbrev released : Reservation → Option ℕ
  released res = if is_hold res.status then some res.book_id else none

  cancelled-IsBalanced :
      (d : Db) (res : Reservation)
      → Requested res d
      → IsBalanced (released res) (Reservations.save (closed_as ReservationStatus.cancelled res) d)
  cancelled-IsBalanced d res h =
      let there =
        subst (λ k. find k d.reservations ≡ some res) (sym (key-find i d.reservations res h.1))
          h.1 in
      let res' : Reservation = closed_as ReservationStatus.cancelled res in
      elim (Bool-cases (is_hold res.status)) [
        | inl held ↦ rw held (release-IsBalanced d res res' there refl h.0 held refl)
        | inr waiting ↦ rw waiting (wait-IsBalanced d res res' there refl h.0 waiting refl)
      ]

  save_cancelled-IsBalanced :
      (res : Reservation)
      → Ensures
          (Requested res)
          (Reservations.update (closed_as ReservationStatus.cancelled res))
          (λ _. IsBalanced (released res))
  unfolding Reservations.update
  save_cancelled-IsBalanced res = modify-Ensures _ _ (λ d h. cancelled-IsBalanced d res h)

  promote_if-IsBalanced :
      (res : Reservation)
      → Ensures
          (IsBalanced (released res))
          (promote_if (is_hold res.status) env res.book_id)
          (λ _. IsBalanced none)
  promote_if-IsBalanced res = elim (Bool-cases (is_hold res.status)) [
    | inl held ↦ rw held (promote_next_reservation-IsBalanced env res.book_id)
    | inr waiting ↦ rw waiting (reads-Ensures _ _ (pure-Reads tt))
  ]

  cancel_reservation_body-IsBalanced :
      Ensures (IsBalanced none) (cancel_reservation_body env i member_id) (λ _. IsBalanced none)
  unfolding cancel_reservation_body
  cancel_reservation_body-IsBalanced = >>=-Ensures _ _ (get_reservation-Ensures _ env i) λ found.
      >>=-Ensures _ _ (found-Ensures (λ d. find i d.reservations) found Error.reservation_not_found)
        λ res.
          >>=-Ensures _ _
            (reads-Ensures (Requested res) _
              (raise_if-Reads (not (res.member_id == member_id)) Error.reservation_not_found))
            λ _.
              >>=-Ensures _ _
                (reads-Ensures _ _
                  (raise_if-Reads (not (is_active_reservation res.status)) Error.value_error))
                λ _. >>=-Ensures _ _ (save_cancelled-IsBalanced res) λ _.
                  >>=-Ensures _ _ (reads-Ensures _ _ flush-Reads) λ _.
                    >>=-Ensures _ _ (promote_if-IsBalanced res) λ _.
                      reads-Ensures _ _ (pure-Reads (closed_as ReservationStatus.cancelled res))

  -- A cancellation keeps every copy accounted for.
  pub cancel_reservation-IsBalanced :
      Ensures (IsBalanced none) (cancel_reservation env i member_id) (λ _. IsBalanced none)
  unfolding cancel_reservation
  cancel_reservation-IsBalanced = transactional-Ensures _ cancel_reservation_body-IsBalanced
