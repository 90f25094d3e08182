-- ===== src/Api/Answers.antt =====
-- What a client is answered.
use production_library_manag.Prelude.{
  ℕ, ◌≡◌, ◌<◌, refl, ap, ◌∙◌, Option, some, Bool, true, false, ◌&&◌, not, select, ltb, ◌==◌, arith,
}
use production_library_manag.Enums.{UserRole}
use production_library_manag.Errors.{Error, status_code}
use production_library_manag.Models.{User, Member, Book, Reservation, member_key, book_key}
use production_library_manag.Session.{
  M, Env, Session, Result, Lock, ok, err, and_then, pure, ◌>>=◌, scalar_one_or_none, transactional,
}
use production_library_manag.Repositories.Books
use production_library_manag.Repositories.Members
use production_library_manag.Services.Reservations
use production_library_manag.Api.Dependencies.{
  Http, get_current_user, require_role, is_member, current_member,
}
use production_library_manag.Api.Routes
use production_library_manag.Api.Responses.{Route, Server, answer, handle_exception, serve}

module _ {A B : Type 0} where
  and_then-err :
      (x : Result A × Session) (f : A → M B) (e : Error)
      → x.0 ≡ err e
      → ((and_then x f).0 ≡ err e) × ((and_then x f).1 ≡ x.1)
  and_then-err (ok a, s) f e h = cc
  and_then-err (err e', s) f e h = (ground (arith, h), refl)

module _ (env : Env) (member_id i : ℕ) (book : Book) (s : Session) where
  -- The service refuses a reservation of a book that is on the shelf.
  place_reservation-available :
      s.depth ≡ 0
      → env.conflict (Lock.book_row i) ≡ false
      → Books.get_by_id i s.db ≡ some book
      → book.is_deleted ≡ false
      → 0 < book.available_copies
      → ((Reservations.place_reservation env member_id i s).0 ≡ err Error.value_error)
        × ((Reservations.place_reservation env member_id i s).1.db ≡ s.db)
  unfolding Reservations.place_reservation Reservations.place_reservation_body
      Reservations.check_request transactional Books.get_by_id_for_update
  place_reservation-available outside free there live stock =
      let on_shelf : ltb 0 book.available_copies ≡ true = ground (arith, stock) in
      simp (outside, free, there, live, on_shelf) (refl, refl)

require_role-allowed :
    (http : Http) (allowed : UserRole → Bool) (user : User) (s : Session)
    → get_current_user http s ≡ (ok user, s)
    → allowed user.role ≡ true
    → require_role allowed http s ≡ (ok user, s)
unfolding require_role
require_role-allowed http allowed user s caller role = simp (caller, role) refl

current_member-found :
    (user : User) (member : Member) (s : Session)
    → scalar_one_or_none (select (λ m. m.user_id == user.id && not m.is_deleted) s.db.members)
      ≡ ok (some member)
    → current_member user s ≡ (ok member, s)
unfolding current_member Members.get_by_user_id
current_member-found user member s profile = simp profile refl

-- An active member with a profile who reserves a book of which a copy is on the shelf is answered
-- 500 Internal Server Error, if no lock is refused: the service raises ValueError, which only the
-- handler of unexpected exceptions takes. The database is left as it was.
pub serve-available :
    (srv : Server) (http : Http) (i : ℕ) (user : User) (member : Member) (book : Book) (s : Session)
    → s.depth ≡ 0
    → get_current_user http s ≡ (ok user, s)
    → is_member user.role ≡ true
    → scalar_one_or_none (select (λ m. m.user_id == user.id && not m.is_deleted) s.db.members)
      ≡ ok (some member)
    → http.env.conflict (Lock.book_row i) ≡ false
    → Books.get_by_id i s.db ≡ some book
    → book.is_deleted ≡ false
    → 0 < book.available_copies
    → (answer 201 (serve srv http (Route.place_reservation i) s).0
        ≡ record { status = 500; success = false })
      × ((serve srv http (Route.place_reservation i) s).1.db ≡ s.db)
unfolding serve Routes.place_reservation handle_exception status_code
serve-available srv http i user member book s outside caller role profile free there live stock =
    let entered = require_role-allowed http is_member user s caller role in
    let (refused, kept) =
      place_reservation-available http.env member.id i book s outside free there live stock in
    let placed : Result Reservation × Session =
      Reservations.place_reservation http.env member.id i s in
    let position : Reservation → M (Reservation × Option ℕ) =
      λ res. Routes.queue_position res >>= λ pos. pure (res, pos) in
    let (stopped, same) = and_then-err placed position Error.value_error refused in
    let (ended, still) =
      and_then-err (and_then placed position) (λ _. pure tt) Error.value_error stopped in
    simp (entered, current_member-found user member s profile)
      (ap (answer 201) ended, ap (λ x. x.db) still ∙ ap (λ x. x.db) same ∙ kept)
