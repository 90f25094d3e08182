-- ===== src/Examples/Own.antt =====
-- The theorems on what a member does for their own profile, and on registration.
use production_library_manag.Prelude.{◌*◌, ◌≡◌, refl, false, [], ◌∷◌, arith}
use production_library_manag.Enums.{UserRole, ReservationStatus, day}
use production_library_manag.Models.{Member, Reservation, Db, satisfies_constraints, member_key}
use production_library_manag.Session.{ok, transactional}
use production_library_manag.Security.{decode_and_validate_token}
use production_library_manag.Repositories.Users
use production_library_manag.Repositories.Members
use production_library_manag.Repositories.Books
use production_library_manag.Repositories.Borrows as Loans
use production_library_manag.Repositories.Reservations as Rows
use production_library_manag.Services.Borrows
use production_library_manag.Services.Reservations
use production_library_manag.Services.Reservations.{closed_as}
use production_library_manag.Services.Auth.{login, register, access_token, new_user}
use production_library_manag.Services.Auth.Entry.{login-register}
use production_library_manag.Api.Dependencies.{
  get_current_user, require_role, current_member, token_payload,
}
use production_library_manag.Api.Routes
use production_library_manag.Api.Responses.{Route, answer, serve}
use production_library_manag.Api.Own.{IsOwn, IsCancelled, cancel_reservation-IsCancelled}
use production_library_manag.Api.Answers.{serve-available}
use production_library_manag.Examples.{env, member, book, waiting, fresh}
use production_library_manag.Examples.Auth.{crypto, client, user, accounts}
use production_library_manag.Examples.Api.{caller, server, platform}

abbrev mine : Reservation
mine = record (waiting 33 (7 * day)) { member_id = 1 }

-- A copy on the shelf; the caller waits.
abbrev quiet : Db
quiet = record platform { borrows = []; reservations = mine ∷ [] }

cancel_reservation-IsCancelled_example :
    (m : Member) × (own : IsOwn caller quiet m) × (own.user.role ≡ UserRole.member)
    × IsCancelled quiet 33 m.id (closed_as ReservationStatus.cancelled mine)
unfolding Routes.cancel_reservation satisfies_constraints require_role decode_and_validate_token
    Users.get_by_id current_member Reservations.cancel_reservation transactional
    Rows.get_by_id_for_update Rows.update
cancel_reservation-IsCancelled_example =
    cancel_reservation-IsCancelled caller 33 (fresh quiet)
      (Routes.cancel_reservation caller 33 (fresh quiet)).1
      (closed_as ReservationStatus.cancelled mine) refl

serve-available_example :
    (answer 201 (serve server caller (Route.place_reservation 10) (fresh platform)).0
      ≡ record { status = 500; success = false })
    × ((serve server caller (Route.place_reservation 10) (fresh platform)).1.db ≡ platform)
unfolding get_current_user token_payload decode_and_validate_token Users.get_by_id Books.get_by_id
serve-available_example =
    serve-available server caller 10 user (member 1) (book 3 1) (fresh platform) refl refl refl refl
      refl refl refl (omega arith)

login-register_example :
    (login env crypto "bob@example.org" "pw" client
      (register env crypto "Bob" "bob@example.org" "pw" (fresh accounts)).1).0
    ≡ ok (access_token env crypto (new_user env crypto "Bob" "bob@example.org" "pw"), "drawn")
unfolding register satisfies_constraints transactional Users.get_by_email Users.create
    Members.create
login-register_example =
    login-register env env crypto "Bob" "bob@example.org" "pw" client (fresh accounts)
      (register env crypto "Bob" "bob@example.org" "pw" (fresh accounts)).1
      (new_user env crypto "Bob" "bob@example.org" "pw") refl refl refl refl
