-- ===== src/Limits/Queue.antt =====
-- A member never has more active reservations than the limit, nor two for one book.
use production_library_manag.Prelude.{
  ℕ, ◌≡◌, ◌≤◌, ◌<◌, refl, sym, subst, some, Bool, true, false, ◌&&◌, List, [], ◌∷◌, ◌==◌, ==_iff,
  arith, count, select, Bool-cases, inl, inr,
}
use production_library_manag.Prelude.Rows.{
  find, put, insert, count-put, count-insert, IsKeyed, put-IsKeyed,
}
use production_library_manag.Enums.{
  ReservationStatus, is_active_reservation, is_pending, max_active_reservations,
}
use production_library_manag.Models.{Reservation, Db, reservation_key}
use production_library_manag.Session.{Env}
use production_library_manag.Session.Logic.{Ensures, modify-Ensures}
use production_library_manag.Session.Preserve.{Preserves}
use production_library_manag.Repositories.Reservations
use production_library_manag.Repositories.Selection.{oldest-select}
use production_library_manag.Services.Reservations.{closed_as, held_until}

abbrev pub is_active_of : ℕ → Reservation → Bool
is_active_of member r = r.member_id == member && is_active_reservation r.status

abbrev pub is_active_for : ℕ → ℕ → Reservation → Bool
is_active_for member book r =
    r.member_id == member && r.book_id == book && is_active_reservation r.status

-- The limits on the active reservations.
pub record RequestsWithin (rows : List Reservation) : Type 0 where
  pub within : (member : ℕ) → count (is_active_of member) rows ≤ max_active_reservations
  pub single : (member book : ℕ) → count (is_active_for member book) rows ≤ 1
  pub keyed : IsKeyed rows

-- A row that does not count adds nothing to a count, whatever it replaces.
count-put-le :
    (p : Reservation → Bool) (r : Reservation) (rows : List Reservation)
    → p r ≡ false
    → count p (put r rows) ≤ count p rows
count-put-le p r [] h = omega arith
count-put-le p r (x ∷ rows) h = ground (arith, count-put-le p r rows)

pub close-RequestsWithin :
    (r : Reservation) (rows : List Reservation)
    → RequestsWithin rows
    → is_active_reservation r.status ≡ false
    → RequestsWithin (put r rows)
close-RequestsWithin r rows h closed = record {
  within = λ member. ground (arith, count-put-le (is_active_of member) r rows, h.within member);
  single = λ member book.
      ground (arith, count-put-le (is_active_for member book) r rows, h.single member book);
  keyed = put-IsKeyed r rows h.keyed;
}

-- A row of the same member and book that was active before.
pub keep-RequestsWithin :
    (old r : Reservation) (rows : List Reservation)
    → RequestsWithin rows
    → find r.id rows ≡ some old
    → r.member_id ≡ old.member_id
    → r.book_id ≡ old.book_id
    → is_active_reservation old.status ≡ true
    → RequestsWithin (put r rows)
keep-RequestsWithin old r rows h there same_member same_book active = record {
  within =
      λ member. ground (arith, count-put (is_active_of member) r old rows there, h.within member);
  single = λ member book.
      ground (arith, count-put (is_active_for member book) r old rows there, h.single member book);
  keyed = put-IsKeyed r rows h.keyed;
}

pub place-RequestsWithin :
    (r : Reservation) (rows : List Reservation)
    → RequestsWithin rows
    → count (is_active_of r.member_id) rows < max_active_reservations
    → count (is_active_for r.member_id r.book_id) rows ≡ 0
    → IsKeyed (insert r rows)
    → RequestsWithin (insert r rows)
place-RequestsWithin r rows h room none_yet keyed = record {
  within = λ member. elim (Bool-cases (r.member_id == member)) [
    | inl same ↦
        subst (λ m. count (is_active_of m) (insert r rows) ≤ max_active_reservations)
          ((==_iff r.member_id member).0 same)
          (ground (arith, count-insert (is_active_of r.member_id) r rows))
    | inr other ↦ ground (arith, count-insert (is_active_of member) r rows, h.within member)
  ];
  single = λ member book. elim (Bool-cases (r.member_id == member && r.book_id == book)) [
    | inl same ↦
        let same_member : r.member_id ≡ member = ground arith in
        let same_book : r.book_id ≡ book = ground arith in
        subst (λ m. count (is_active_for m book) (insert r rows) ≤ 1) same_member
          (subst (λ b. count (is_active_for r.member_id b) (insert r rows) ≤ 1) same_book
            (ground (arith, count-insert (is_active_for r.member_id r.book_id) r rows)))
    | inr other ↦
        ground (arith, count-insert (is_active_for member book) r rows, h.single member book)
  ];
  keyed = keyed;
}

abbrev pub Orderly : Db → Type 0
Orderly d = RequestsWithin d.reservations

-- An update that closes a reservation, and the promotion of one.
pub close-Preserves :
    (status : ReservationStatus) (r : Reservation)
    → is_active_reservation status ≡ false
    → Preserves Orderly (Reservations.update (closed_as status r))
unfolding Reservations.update
close-Preserves status r closed = record {
  ensured =
      modify-Ensures _ _ (λ d h. close-RequestsWithin (closed_as status r) d.reservations h closed);
}

promoted-Orderly :
    (env : Env) (i : ℕ) (d : Db) (r : Reservation)
    → Orderly d
    → some r ≡ Reservations.oldest (select (Reservations.is_pending_for i) d.reservations)
    → Orderly (Reservations.save (held_until env r) d)
promoted-Orderly env i d r h e =
    let (there, chosen) =
      oldest-select (Reservations.is_pending_for i) d.reservations r h.keyed (sym e) in
    keep-RequestsWithin r (held_until env r) d.reservations h there refl refl
      (pending_active r.status (ground arith))
  where
    pending_active : (s : ReservationStatus) → is_pending s ≡ true → is_active_reservation s ≡ true
    pending_active ReservationStatus.pending e = refl
    pending_active ReservationStatus.hold e = cc
    pending_active ReservationStatus.completed e = cc
    pending_active ReservationStatus.cancelled e = cc
    pending_active ReservationStatus.expired e = cc

pub hold-Ensures :
    (env : Env) (i : ℕ) (r : Reservation)
    → Ensures
        (λ d.
          Orderly d
          × (some r ≡ Reservations.oldest (select (Reservations.is_pending_for i) d.reservations)))
        (Reservations.update (held_until env r))
        (λ _. Orderly)
unfolding Reservations.update
hold-Ensures env i r = modify-Ensures _ _ (λ d h. promoted-Orderly env i d r h.0 h.1)
