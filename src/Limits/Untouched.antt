-- ===== src/Limits/Untouched.antt =====
-- Which services leave the table of loans alone, and which the table of reservations.
use production_library_manag.Prelude.{
  ℕ, ◌+◌, Option, none, some, Bool, true, false, List, [], ◌∷◌, String,
}
use production_library_manag.Prelude.Int.{ℤ}
use production_library_manag.Models.{Book, Member, BorrowRecord, Reservation, Db}
use production_library_manag.Session.{Env}
use production_library_manag.Session.Preserve.{
  Preserves, preserves, modify-Preserves, pure-Preserves,
}
use production_library_manag.Repositories.Books
use production_library_manag.Repositories.Books.{Attribute}
use production_library_manag.Repositories.Members
use production_library_manag.Repositories.Reservations
use production_library_manag.Services.Books.{
  create_book_body, create_book, adjust_copies, update_book_body, update_book, delete_book_body,
  delete_book,
}
use production_library_manag.Services.Reservations.{
  check_member, check_request, restore_copy, promote_or_restore, promote_body,
  promote_next_reservation, promote_if, expire_hold, expire_holds, place_reservation_body,
  place_reservation, cancel_reservation_body, cancel_reservation, process_expired_holds_body,
  process_expired_holds,
}
use production_library_manag.Services.Borrows.{
  Config, validate_member_for_borrow, find_active_hold, complete_hold, take_copy, give_back,
  check_renewal,
}

-- The queries that take a lock, and the checks, keep every predicate.
module _ (P : Db → Type 0) (env : Env) where
  pub get_book-Preserves : (i : ℕ) → Preserves P (Books.get_by_id_for_update env i)
  unfolding Books.get_by_id_for_update
  get_book-Preserves i = search preserves

  pub get_member-Preserves : (i : ℕ) → Preserves P (Members.get_by_id_for_update env i)
  unfolding Members.get_by_id_for_update
  get_member-Preserves i = search preserves

  pub get_reservation-Preserves : (i : ℕ) → Preserves P (Reservations.get_by_id_for_update env i)
  unfolding Reservations.get_by_id_for_update
  get_reservation-Preserves i = search preserves

  pub get_fifo-Preserves : (i : ℕ) → Preserves P (Reservations.get_fifo_pending_by_book_id env i)
  unfolding Reservations.get_fifo_pending_by_book_id
  get_fifo-Preserves i = search preserves

  pub get_expired_holds-Preserves : Preserves P (Reservations.get_expired_holds env)
  unfolding Reservations.get_expired_holds
  get_expired_holds-Preserves = search preserves

  pub find_active_hold-Preserves : (i : ℕ) → Preserves P (find_active_hold env i)
  unfolding find_active_hold
  find_active_hold-Preserves i = search preserves

  pub validate-Preserves :
      (cfg : Config) (m : Member) → Preserves P (validate_member_for_borrow env cfg m)
  unfolding validate_member_for_borrow
  validate-Preserves cfg m = search preserves depth 12

  pub check_renewal-Preserves :
      (cfg : Config) (r : BorrowRecord) → Preserves P (check_renewal env cfg r)
  unfolding check_renewal
  check_renewal-Preserves cfg r = search preserves depth 8

  pub check_member-Preserves : (m : Option Member) → Preserves P (check_member m)
  unfolding check_member
  check_member-Preserves none = search preserves
  check_member-Preserves (some m) = search preserves

  pub check_request-Preserves : (m i : ℕ) (b : Book) → Preserves P (check_request env m i b)
  unfolding check_request Reservations.get_active_by_member_and_book
  check_request-Preserves m i b =
      search (preserves, get_member-Preserves, check_member-Preserves) depth 20

  pub adjust_copies-Preserves : (o : Option (Option ℤ)) (b : Book) → Preserves P (adjust_copies o b)
  unfolding adjust_copies
  adjust_copies-Preserves none b = search preserves
  adjust_copies-Preserves (some none) b = search preserves
  adjust_copies-Preserves (some (some n)) b = search preserves

  get_by_isbn-Preserves : (number : String) → Preserves P (Books.get_by_isbn number)
  unfolding Books.get_by_isbn
  get_by_isbn-Preserves number = search preserves

-- A predicate that writing a book keeps is kept by all that writes books only.
module _ (P : Db → Type 0) (save_kept : (b : Book) (d : Db) → P d → P (Books.save b d)) where
  update_book-Preserves : (b : Book) (l : List Attribute) → Preserves P (Books.update b l)
  unfolding Books.update
  update_book-Preserves b l = modify-Preserves P _ (λ d h. save_kept (Books.set_attributes b l) d h)

  pub restore_copy-Preserves : (o : Option Book) → Preserves P (restore_copy o)
  unfolding restore_copy
  restore_copy-Preserves none = search preserves
  restore_copy-Preserves (some b) = search (preserves, update_book-Preserves)

  pub take_copy-Preserves : (c : Bool) (b : Book) → Preserves P (take_copy c b)
  unfolding take_copy
  take_copy-Preserves true b = search preserves
  take_copy-Preserves false b = search (preserves, update_book-Preserves)

  pub update_service-Preserves :
      (env : Env) (i : ℕ) (l : List Attribute) → Preserves P (update_book env i l)
  unfolding update_book update_book_body
  update_service-Preserves env i l =
      search (preserves, get_book-Preserves, adjust_copies-Preserves, update_book-Preserves) depth
        14

  mark_deleted-Preserves : (env : Env) (o : Option Book) → Preserves P (Books.mark_deleted env o)
  unfolding Books.mark_deleted
  mark_deleted-Preserves env none = search preserves
  mark_deleted-Preserves env (some b) = search (preserves, modify-Preserves, save_kept)

  pub delete_service-Preserves : (env : Env) (i : ℕ) → Preserves P (delete_book env i)
  unfolding delete_book delete_book_body Books.delete
  delete_service-Preserves env i = search (preserves, mark_deleted-Preserves) depth 10

  pub create_service-Preserves :
      ((b : Book) (d : Db) → P d → P (Books.added b d))
      → (env : Env) (t a : Option String) (n : String) (total : ℕ) (g : Option String)
      → Preserves P (create_book env t a n total g)
  unfolding create_book create_book_body Books.create
  create_service-Preserves added_kept env t a n total g =
      search (preserves, get_by_isbn-Preserves, modify-Preserves, added_kept) depth 12

  -- With reservations too: what is kept leaves the loans to be looked at.
  module _ (env : Env)
      (update_kept : (r : Reservation) (d : Db) → P d → P (Reservations.save r d)) where
    update_reservation-Preserves : (r : Reservation) → Preserves P (Reservations.update r)
    unfolding Reservations.update
    update_reservation-Preserves r = modify-Preserves P _ (λ d h. update_kept r d h)

    pub complete_hold-Preserves : (m : ℕ) (o : Option Reservation) → Preserves P (complete_hold m o)
    unfolding complete_hold
    complete_hold-Preserves m none = search preserves
    complete_hold-Preserves m (some r) = search (preserves, update_reservation-Preserves)

    promote_or_restore-Preserves :
        (i : ℕ) (o : Option Reservation) → Preserves P (promote_or_restore env i o)
    unfolding promote_or_restore
    promote_or_restore-Preserves i none =
        search (preserves, get_book-Preserves, restore_copy-Preserves)
    promote_or_restore-Preserves i (some r) = search (preserves, update_reservation-Preserves)

    pub promote-Preserves : (i : ℕ) → Preserves P (promote_next_reservation env i)
    unfolding promote_next_reservation promote_body
    promote-Preserves i = search (preserves, get_fifo-Preserves, promote_or_restore-Preserves)

    pub give_back-Preserves : (cfg : Config) (i : ℕ) → Preserves P (give_back env cfg i)
    unfolding give_back
    give_back-Preserves cfg i =
        search (preserves, get_book-Preserves, promote-Preserves, restore_copy-Preserves)

    promote_if-Preserves : (b : Bool) (i : ℕ) → Preserves P (promote_if b env i)
    promote_if-Preserves true i = promote-Preserves i
    promote_if-Preserves false i = pure-Preserves P tt

    pub cancel-Preserves : (i m : ℕ) → Preserves P (cancel_reservation env i m)
    unfolding cancel_reservation cancel_reservation_body
    cancel-Preserves i m =
        search
          (preserves, get_reservation-Preserves, update_reservation-Preserves, promote_if-Preserves)
          depth 14

    expire_hold-Preserves : (r : Reservation) → Preserves P (expire_hold env r)
    unfolding expire_hold
    expire_hold-Preserves r = search (preserves, update_reservation-Preserves, promote-Preserves)

    expire_holds-Preserves : (l : List Reservation) (n : ℕ) → Preserves P (expire_holds env l n)
    unfolding expire_holds
    expire_holds-Preserves [] n = pure-Preserves P n
    expire_holds-Preserves (r ∷ l) n =
        search (preserves, expire_hold-Preserves r, expire_holds-Preserves l (n + 1))

    pub sweep-Preserves : Preserves P (process_expired_holds env)
    unfolding process_expired_holds process_expired_holds_body
    sweep-Preserves = search (preserves, get_expired_holds-Preserves, expire_holds-Preserves)

    pub place-Preserves :
        ((r : Reservation) (d : Db) → P d → P (Reservations.added r d))
        → (m i : ℕ) → Preserves P (place_reservation env m i)
    unfolding place_reservation place_reservation_body Reservations.create
    place-Preserves added_kept m i =
        search
          (preserves, get_book-Preserves, check_request-Preserves, modify-Preserves, added_kept)
          depth 14
