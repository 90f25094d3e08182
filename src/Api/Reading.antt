-- ===== src/Api/Reading.antt =====
-- The dependencies and the routes that only read leave the session as it was.
use production_library_manag.Prelude.{ℕ, Option, String, Bool}
use production_library_manag.Enums.{UserRole}
use production_library_manag.Models.{User, Reservation}
use production_library_manag.Session.Looks.{Looks, looks}
use production_library_manag.Repositories.Members
use production_library_manag.Services.Books
use production_library_manag.Services.Borrows
use production_library_manag.Services.Reservations
use production_library_manag.Api.Dependencies.{Http, get_current_user, require_role, current_member}
use production_library_manag.Api.Routes

module _ (http : Http) where
  pub get_current_user-Looks : Looks (get_current_user http)
  unfolding get_current_user
  get_current_user-Looks = search looks depth 12

  pub require_role-Looks : (allowed : UserRole → Bool) → Looks (require_role allowed http)
  unfolding require_role
  require_role-Looks allowed = search (looks, get_current_user-Looks)

  pub current_member-Looks : (u : User) → Looks (current_member u)
  unfolding current_member Members.get_by_user_id
  current_member-Looks u = search looks

  pub get_history-Looks : (page page_size : ℕ) → Looks (Routes.get_history http page page_size)
  unfolding Routes.get_history Borrows.get_borrow_history
  get_history-Looks page page_size =
      search (looks, get_current_user-Looks, current_member-Looks) depth 8

  pub list_active_reservations-Looks : Looks (Routes.list_active_reservations http)
  unfolding Routes.list_active_reservations Reservations.get_active_reservations
  list_active_reservations-Looks = search (looks, require_role-Looks, current_member-Looks) depth 8

pub get_book-Looks : (i : ℕ) → Looks (Books.get_book_by_id i)
unfolding Books.get_book_by_id
get_book-Looks i = search looks depth 8

pub search_books-Looks :
    (icontains : String → String → Bool) (page page_size : ℕ) (text author genre : Option String)
    → Looks (Routes.search_books icontains page page_size text author genre)
unfolding Routes.search_books Books.search_books
search_books-Looks icontains page page_size text author genre = search looks

pub queue_position-Looks : (r : Reservation) → Looks (Routes.queue_position r)
unfolding Routes.queue_position
queue_position-Looks r = search looks
