-- ===== src/Repositories/Selection.antt =====
-- What the queries find.
use production_library_manag.Prelude.{
  ℕ, ◌≡◌, none, some, Bool, true, false, List, [], ◌∷◌, select, All, arith, inl, inr, Bool-cases,
  ltb, subst,
}
use production_library_manag.Prelude.Rows.{Keyed, find, select-find, IsKeyed}
use production_library_manag.Models.{Book, Reservation, Db, book_key, reservation_key}
use production_library_manag.Session.{
  Env, ok, scalar_one_or_none, book_row, pending_rows, reservation_row,
}
use production_library_manag.Session.Logic.{
  Ensures, reads-Ensures, query-Ensures, lock-Reads, >>=-Ensures,
}
use production_library_manag.Repositories.Books
use production_library_manag.Repositories.Reservations

-- A book that is found is in the table, and not deleted.
pub get_by_id-eq-some :
    (i : ℕ) (d : Db) {b : Book}
    → Books.get_by_id i d ≡ some b
    → (find i d.books ≡ some b) × (b.is_deleted ≡ false)
unfolding Books.get_by_id
get_by_id-eq-some i d e = ground arith

-- A book that is not found is not in the table, or deleted.
pub get_by_id-eq-none :
    (i : ℕ) (d : Db) (b : Book)
    → Books.get_by_id i d ≡ none
    → find i d.books ≡ some b
    → b.is_deleted ≡ true
unfolding Books.get_by_id
get_by_id-eq-none i d b e f = ground arith

All-earliest :
    (P : Reservation → Type 0) (r : Reservation) (rs : List Reservation)
    → P r
    → All P rs
    → P (Reservations.earliest r rs)
All-earliest P r [] p ps = p
All-earliest P r (x ∷ xs) p ps = elim (Bool-cases (ltb x.reserved_at r.reserved_at)) [
  | inl older ↦ rw older (All-earliest P x xs ps.0 ps.1)
  | inr newer ↦ rw newer (All-earliest P r xs p ps.1)
]

-- The oldest of some rows is one of them.
All-oldest :
    (P : Reservation → Type 0) (rows : List Reservation) (r : Reservation)
    → All P rows
    → Reservations.oldest rows ≡ some r
    → P r
unfolding Reservations.oldest
All-oldest P [] r a e = cc
All-oldest P (x ∷ xs) r a e = subst P (ground arith) (All-earliest P x xs a.0 a.1)

module _ {A : Type 0} where
  One-OnOk :
      (P : A → Type 0) (rows : List A) (r : A)
      → All P rows
      → scalar_one_or_none rows ≡ ok (some r)
      → P r
  One-OnOk P [] r a e = cc
  One-OnOk P (x ∷ []) r a e = subst P (ground arith) a.0
  One-OnOk P (x ∷ y ∷ rest) r a e = cc

  pub one-select :
      ⦃k : Keyed A⦄ (p : A → Bool) (rows : List A) (r : A)
      → IsKeyed rows
      → scalar_one_or_none (select p rows) ≡ ok (some r)
      → (find (k.key r) rows ≡ some r) × (p r ≡ true)
  one-select p rows r k e = One-OnOk _ (select p rows) r (select-find p rows k) e

pub oldest-select :
    (p : Reservation → Bool) (rows : List Reservation) (r : Reservation)
    → IsKeyed rows
    → Reservations.oldest (select p rows) ≡ some r
    → (find r.id rows ≡ some r) × (p r ≡ true)
oldest-select p rows r k e = All-oldest _ (select p rows) r (select-find p rows k) e

module _ (P : Db → Type 0) (env : Env) (i : ℕ) where
  pub get_book-Ensures :
      Ensures P (Books.get_by_id_for_update env i) (λ o d. P d × (o ≡ Books.get_by_id i d))
  unfolding Books.get_by_id_for_update
  get_book-Ensures =
      >>=-Ensures _ _ (reads-Ensures P _ (lock-Reads env (book_row i)))
        (λ _. query-Ensures P (Books.get_by_id i))

  pub get_fifo-Ensures : Ensures P (Reservations.get_fifo_pending_by_book_id env i) (λ o d.
      P d × (o ≡ Reservations.oldest (select (Reservations.is_pending_for i) d.reservations)))
  unfolding Reservations.get_fifo_pending_by_book_id
  get_fifo-Ensures =
      >>=-Ensures _ _ (reads-Ensures P _ (lock-Reads env (pending_rows i))) (λ _. query-Ensures P _)

  pub get_reservation-Ensures :
      Ensures P (Reservations.get_by_id_for_update env i) (λ o d. P d × (o ≡ find i d.reservations))
  unfolding Reservations.get_by_id_for_update
  get_reservation-Ensures =
      >>=-Ensures _ _ (reads-Ensures P _ (lock-Reads env (reservation_row i)))
        (λ _. query-Ensures P _)
