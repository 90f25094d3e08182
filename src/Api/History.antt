-- ===== src/Api/History.antt =====
-- What every route keeps, over any history of routes and whoever calls them.
use production_library_manag.Prelude.{ℕ, List, [], ◌∷◌}
use production_library_manag.Models.{User, Member, RefreshToken, Db}
use production_library_manag.Session.{M, Env, Session, ◌>>=◌}
use production_library_manag.Session.Logic.{Ensures}
use production_library_manag.Session.Looks.{Looks, looks}
use production_library_manag.Session.Safe.{IsSettled}
use production_library_manag.Session.Settling.{
  Settles, Looks-Settles, observe-Settles, >>=-Settles, >>-Settles,
}
use production_library_manag.Services.Dashboard.{get_summary}
use production_library_manag.Repositories.Dashboard.{Sql}
use production_library_manag.Requests.{Request, handle}
use production_library_manag.Api.Dependencies.{Http}
use production_library_manag.Api.Routes
use production_library_manag.Api.Responses.{Route, Server, serve, serve_all}
use production_library_manag.Api.Reading.{
  get_current_user-Looks, require_role-Looks, current_member-Looks, get_history-Looks,
  list_active_reservations-Looks, get_book-Looks, search_books-Looks, queue_position-Looks,
}
use production_library_manag.Api.Settled

module _ (P : Db → Type 0) (srv : Server)
    (keeps : (env : Env) (q : Request) → Ensures P (handle env srv.config q) (λ _. P))
    (quiet : (d : Db) (us : List User) (ms : List Member) (ts : List RefreshToken)
      → P d
      → P (record d { users = us; members = ms; tokens = ts })) where
  look_then :
      {A B : Type 0} (m : M A) (f : A → M B)
      → Looks m
      → ((a : A) → Settles P (f a))
      → Settles P (m >>= f)
  look_then m f l = >>=-Settles P m f (Looks-Settles P m l)

  get_summary-Settles : (sql : Sql) (env : Env) (days : ℕ) → Settles P (get_summary sql env days)
  unfolding get_summary
  get_summary-Settles sql env days =
      search (observe-Settles, >>-Settles, Looks-Settles, looks) depth 16

  serve-Settles : (http : Http) (route : Route) → Settles P (serve srv http route)
  unfolding serve Routes.create_book Routes.update_book Routes.delete_book Routes.borrow_book
      Routes.return_book Routes.renew_book Routes.place_reservation Routes.cancel_reservation
      Routes.sweep_expired_holds Routes.get_dashboard_summary Routes.register Routes.login
      Routes.refresh Routes.logout
  serve-Settles http (Route.create_book t a n total g) = Settled.respond-Settles P _ (
      look_then _ _ (require_role-Looks http _)
        λ _. Settled.create_book-Settles P srv.config keeps http.env t a n total g)
  serve-Settles http (Route.search_books page page_size text author genre) =
      Settled.respond-Settles P _
        (Looks-Settles P _ (search_books-Looks _ page page_size text author genre))
  serve-Settles http (Route.get_book i) =
      Settled.respond-Settles P _ (Looks-Settles P _ (get_book-Looks i))
  serve-Settles http (Route.update_book i l) = Settled.respond-Settles P _ (
      look_then _ _ (require_role-Looks http _)
        λ _. Settled.update_book-Settles P srv.config keeps http.env i l)
  serve-Settles http (Route.delete_book i) = Settled.respond-Settles P _ (
      look_then _ _ (require_role-Looks http _)
        λ _. Settled.delete_book-Settles P srv.config keeps http.env i)
  serve-Settles http (Route.borrow_book i) = Settled.respond-Settles P _ (
      look_then _ _ (get_current_user-Looks http) λ u.
        look_then _ _ (current_member-Looks http u)
          λ m. Settled.borrow_book-Settles P srv.config keeps http.env m.id i)
  serve-Settles http (Route.return_book i) = Settled.respond-Settles P _ (
      >>=-Settles P _ _ (Settled.return_book-Settles P srv.config keeps http.env i)
        λ _. Looks-Settles P _ (search looks))
  serve-Settles http (Route.renew_book i) =
      Settled.respond-Settles P _ (Settled.renew_book-Settles P srv.config keeps http.env i)
  serve-Settles http (Route.get_history page page_size) =
      Settled.respond-Settles P _ (Looks-Settles P _ (get_history-Looks http page page_size))
  serve-Settles http (Route.place_reservation i) = Settled.respond-Settles P _ (
      look_then _ _ (require_role-Looks http _) λ u.
        look_then _ _ (current_member-Looks http u) λ m.
          >>=-Settles P _ _ (Settled.place_reservation-Settles P srv.config keeps http.env m.id i)
            λ r. Looks-Settles P _ (search (looks, queue_position-Looks)))
  serve-Settles http (Route.cancel_reservation i) = Settled.respond-Settles P _ (
      look_then _ _ (require_role-Looks http _) λ u.
        look_then _ _ (current_member-Looks http u)
          λ m. Settled.cancel_reservation-Settles P srv.config keeps http.env i m.id)
  serve-Settles http Route.list_active_reservations =
      Settled.respond-Settles P _ (Looks-Settles P _ (list_active_reservations-Looks http))
  serve-Settles http Route.sweep_expired_holds = Settled.respond-Settles P _ (
      look_then _ _ (require_role-Looks http _)
        λ _. Settled.sweep-Settles P srv.config keeps http.env)
  serve-Settles http Route.get_me =
      Settled.respond-Settles P _ (Looks-Settles P _ (get_current_user-Looks http))
  serve-Settles http (Route.get_dashboard_summary days) =
      Settled.respond-Settles P _
        (look_then _ _ (require_role-Looks http _) λ _. get_summary-Settles srv.sql http.env days)
  serve-Settles http (Route.register name email password) =
      Settled.respond-Settles P _
        (Settled.register-Settles P quiet http.env http.crypto name email password)
  serve-Settles http (Route.login email password) =
      Settled.respond-Settles P _
        (Settled.login-Settles P quiet http.env http.crypto email password _)
  serve-Settles http (Route.refresh token) =
      Settled.respond-Settles P _ (Settled.refresh-Settles P quiet http.env http.crypto token _)
  serve-Settles http (Route.logout token) =
      Settled.respond-Settles P _ (Settled.logout-Settles P quiet http.crypto token)

  pub serve_all-IsSettled :
      (history : List (Http × Route)) (s : Session)
      → IsSettled P s
      → IsSettled P (serve_all srv history s)
  unfolding serve_all
  serve_all-IsSettled [] s h = h
  serve_all-IsSettled ((http, route) ∷ rest) s h =
      serve_all-IsSettled rest (serve srv http route s).1 ((serve-Settles http route).settles s h)
