-- ===== src/Api/Responses.antt =====
-- The exception handlers of app/main.py, and a server that answers any route.
use production_library_manag.Prelude.{ℕ, Option, Bool, true, false, List, [], ◌∷◌, String}
use production_library_manag.Errors.{Error, status_code}
use production_library_manag.Session.{M, Session, Result, ok, err}
use production_library_manag.Repositories.Books.{Attribute}
use production_library_manag.Repositories.Dashboard.{Sql}
use production_library_manag.Services.Books
use production_library_manag.Services.Borrows.{Config}
use production_library_manag.Requests.{respond}
use production_library_manag.Api.Dependencies.{Http, get_current_user}
use production_library_manag.Api.Routes

-- How a handler is chosen: by the class of the exception.
pub data Handler : Type 0 where
  application_exception integrity_error general_exception : Handler

abbrev pub handler_of : Error → Handler
handler_of Error.value_error = Handler.general_exception
handler_of Error.type_error = Handler.general_exception
handler_of Error.operational_error = Handler.general_exception
handler_of Error.multiple_results_found = Handler.general_exception
handler_of Error.integrity_error = Handler.integrity_error
handler_of e = Handler.application_exception

-- The envelope of every answer; `error_code` is left out.
pub record Response : Type 0 where
  pub status : ℕ
  pub success : Bool

-- `application_exception_handler`, `integrity_exception_handler`, `general_exception_handler`
unfoldable pub handle_exception : Handler → Error → Response
handle_exception Handler.application_exception e = record {
  status = status_code e;
  success = false;
}
handle_exception Handler.integrity_error e = record { status = 400; success = false }
handle_exception Handler.general_exception e = record { status = 500; success = false }

-- The status of a route's success.
abbrev pub answer : {A : Type 0} → ℕ → Result A → Response
answer status (ok a) = record { status = status; success = true }
answer status (err e) = handle_exception (handler_of e) e

pub data Route : Type 0 where
  create_book :
      (title author : Option String) (isbn : String) (total : ℕ) (genre : Option String) → Route
  search_books : (page page_size : ℕ) (text author genre : Option String) → Route
  get_book : (book_id : ℕ) → Route
  update_book : (book_id : ℕ) → List Attribute → Route
  delete_book borrow_book return_book renew_book place_reservation cancel_reservation :
      (id : ℕ) → Route
  get_history : (page page_size : ℕ) → Route
  list_active_reservations sweep_expired_holds get_me : Route
  get_dashboard_summary : (days : ℕ) → Route
  register : (name email password : String) → Route
  login : (email password : String) → Route
  refresh logout : (token : String) → Route

-- What the deployment fixes.
pub record Server : Type 0 where
  pub config : Config
  pub sql : Sql
  pub icontains : String → String → Bool
  pub contains : String → String → Bool

unfoldable pub serve : Server → Http → Route → M (Unit {0})
serve srv http (Route.create_book title author isbn total genre) =
    respond (Routes.create_book http title author isbn total genre)
serve srv http (Route.search_books page page_size text author genre) =
    respond (Routes.search_books srv.icontains page page_size text author genre)
serve srv http (Route.get_book i) = respond (Books.get_book_by_id i)
serve srv http (Route.update_book i attributes) = respond (Routes.update_book http i attributes)
serve srv http (Route.delete_book i) = respond (Routes.delete_book http i)
serve srv http (Route.borrow_book i) = respond (Routes.borrow_book http srv.config i)
serve srv http (Route.return_book i) = respond (Routes.return_book http srv.config i)
serve srv http (Route.renew_book i) = respond (Routes.renew_book http srv.config i)
serve srv http (Route.get_history page page_size) = respond (Routes.get_history http page page_size)
serve srv http (Route.place_reservation i) = respond (Routes.place_reservation http i)
serve srv http (Route.cancel_reservation i) = respond (Routes.cancel_reservation http i)
serve srv http Route.list_active_reservations = respond (Routes.list_active_reservations http)
serve srv http Route.sweep_expired_holds = respond (Routes.sweep_expired_holds http)
serve srv http Route.get_me = respond (get_current_user http)
serve srv http (Route.get_dashboard_summary days) =
    respond (Routes.get_dashboard_summary http srv.sql days)
serve srv http (Route.register name email password) =
    respond (Routes.register http name email password)
serve srv http (Route.login email password) =
    respond (Routes.login srv.contains http email password)
serve srv http (Route.refresh token) = respond (Routes.refresh srv.contains http token)
serve srv http (Route.logout token) = respond (Routes.logout http token)

-- A history: each route with its request. The session stands for the database; a route begins and
-- ends outside any block.
unfoldable pub serve_all : Server → List (Http × Route) → Session → Session
unfolding serve
serve_all srv [] s = s
serve_all srv ((http, route) ∷ rest) s = serve_all srv rest (serve srv http route s).1
