-- ===== src/Examples/Api.antt =====
-- The theorems on the routes, at the small library with two accounts.
use production_library_manag.Prelude.{
  ◌*◌, ◌≡◌, ◌≤◌, refl, none, some, true, false, List, [], ◌∷◌, String, str_eq, length, arith,
  if◌then◌else◌,
}
use production_library_manag.Prelude.Rows.{find}
use production_library_manag.Enums.{BorrowStatus, ReservationStatus, day}
use production_library_manag.Models.{
  BorrowRecord, Reservation, Db, borrow_key, reservation_key, user_key, satisfies_constraints,
}
use production_library_manag.Session.{ok, transactional}
use production_library_manag.Session.Safe.{IsSettled}
use production_library_manag.Security.{create_access_token}
use production_library_manag.Repositories.Borrows
use production_library_manag.Repositories.Users
use production_library_manag.Repositories.Tokens
use production_library_manag.Services.Borrows.{default_config}
use production_library_manag.Services.Auth.{login}
use production_library_manag.Inventory.Defs.{IsBalanced, loans, holds, requests}
use production_library_manag.Limits.Loans.{Within}
use production_library_manag.Limits.Queue.{Orderly}
use production_library_manag.Api.Dependencies.{Http, get_current_user, is_staff}
use production_library_manag.Api.Routes.{Page, search_books}
use production_library_manag.Api.Responses.{Route, Server, serve, serve_all}
use production_library_manag.Api.Sound.{Sound, serve_all-Sound}
use production_library_manag.Api.Access.{Guarded, IsAuthorized, serve-IsAuthorized}
use production_library_manag.Api.Entry.{get_current_user-login}
use production_library_manag.Api.Paging.{search_books-single}
use production_library_manag.Lifecycle.Loans.{LoanPath, IsRenewed}
use production_library_manag.Lifecycle.Lending.{period_of}
use production_library_manag.Lifecycle.Records.{
  serve_all-LoanPath, serve_all-returned, serve_all-IsRenewed,
}
use production_library_manag.Lifecycle.Waiting.{ReservationPath}
use production_library_manag.Lifecycle.Requests.{serve_all-ReservationPath, serve_all-closed}
use production_library_manag.Examples.{env, member, book, loan, held, waiting, fresh}
use production_library_manag.Examples.Auth.{crypto, client, user, accounts, jose-IsFaithful}
use production_library_manag.Examples.Dashboard.{sql}

abbrev lowered : String → String
lowered s = if str_eq s "Bearer" then "bearer" else s

abbrev pub caller : Http
caller = record {
  env = env;
  crypto = crypto;
  lower = lowered;
  authorization = some (record { scheme = "Bearer"; credentials = "access" });
  client_host = none;
  user_agent = some "curl";
}

abbrev stranger : Http
stranger = record caller { authorization = none }

abbrev pub server : Server
server = record {
  config = default_config;
  sql = sql;
  icontains = λ a b. true;
  contains = λ a b. false;
}

abbrev back : BorrowRecord
back = record loan { id = 21; return_date = some (12 * day); status = BorrowStatus.returned }

abbrev dropped : Reservation
dropped = record (waiting 32 (4 * day)) { status = ReservationStatus.cancelled }

-- One copy on the shelf, one out, one kept; one member waits.
abbrev pub platform : Db
platform = record {
  users = user ∷ [];
  members = member 1 ∷ member 2 ∷ member 3 ∷ [];
  books = book 3 1 ∷ [];
  borrows = loan ∷ back ∷ [];
  reservations = held ∷ waiting 31 (6 * day) ∷ dropped ∷ [];
  tokens = [];
}

abbrev day_of_routes : List (Http × Route)
day_of_routes =
    (stranger, Route.sweep_expired_holds)
    ∷ (caller, Route.login "ada@example.org" "secret")
    ∷ (caller, Route.renew_book 20)
    ∷ (caller, Route.borrow_book 10)
    ∷ (caller, Route.place_reservation 10)
    ∷ (stranger, Route.return_book 20)
    ∷ (caller, Route.get_dashboard_summary 30)
    ∷ []

platform-IsBalanced : IsBalanced none platform
unfolding loans holds requests
platform-IsBalanced = record { counted = λ i. ground arith; keyed = ground arith }

platform-Within : Within 5 platform
platform-Within = record { within = λ m. ground arith; unmarked = ground arith }

platform-Orderly : Orderly platform
platform-Orderly = record {
  within = λ m. ground arith;
  single = λ m i. ground arith;
  keyed = ground arith;
}

begun : {P : Db → Type 0} → P platform → IsSettled P (fresh platform)
begun h = record { outside = refl; saved = refl; kept = h }

serve_all-Sound_example :
    IsSettled (Sound default_config) (serve_all server day_of_routes (fresh platform))
serve_all-Sound_example =
    serve_all-Sound server day_of_routes (fresh platform)
      (begun (platform-IsBalanced, (platform-Within, platform-Orderly)))

serve-IsAuthorized_example :
    Guarded
      (IsAuthorized caller is_staff)
      (fresh platform)
      (serve server caller Route.sweep_expired_holds (fresh platform))
serve-IsAuthorized_example =
    serve-IsAuthorized server caller Route.sweep_expired_holds is_staff (fresh platform) refl

get_current_user-login_example :
    get_current_user caller (login env crypto "ada@example.org" "secret" client (fresh accounts)).1
    ≡ (ok user, (login env crypto "ada@example.org" "secret" client (fresh accounts)).1)
unfolding login satisfies_constraints create_access_token transactional Users.get_by_email
    Tokens.create
get_current_user-login_example =
    get_current_user-login env crypto "ada@example.org" "secret" client user (fresh accounts)
      (login env crypto "ada@example.org" "secret" client (fresh accounts)).1 "access" "drawn"
      caller "Bearer" refl refl jose-IsFaithful refl refl refl (omega arith) (omega arith)

search_books-single_example :
    (p : Page) × (search_books (λ a b. true) 2 20 none none none (fresh platform)
      ≡ (ok p, fresh platform))
    × (length p.items ≤ 20)
    × (p.total ≡ length p.items)
    × (p.pages ≡ 1)
search_books-single_example = search_books-single (λ a b. true) 2 20 none none none (fresh platform)

serve_all-LoanPath_example :
    (r : BorrowRecord) × (Borrows.get_by_id 20 (serve_all server day_of_routes (fresh platform)).db
      ≡ some r)
    × LoanPath (period_of default_config) loan r
unfolding Borrows.get_by_id
serve_all-LoanPath_example =
    serve_all-LoanPath server day_of_routes (fresh platform) 20 loan refl refl refl

serve_all-returned_example :
    Borrows.get_by_id 21 (serve_all server day_of_routes (fresh platform)).db ≡ some back
unfolding Borrows.get_by_id
serve_all-returned_example =
    serve_all-returned server day_of_routes (fresh platform) 21 back refl refl refl refl

serve_all-IsRenewed_example :
    (r : BorrowRecord) × (Borrows.get_by_id 20 (serve_all server day_of_routes (fresh platform)).db
      ≡ some r)
    × IsRenewed (period_of default_config) loan r
unfolding Borrows.get_by_id
serve_all-IsRenewed_example =
    serve_all-IsRenewed server day_of_routes (fresh platform) 20 loan refl refl refl (omega arith)

serve_all-ReservationPath_example :
    (r : Reservation) × (find 30 (serve_all server day_of_routes (fresh platform)).db.reservations
      ≡ some r)
    × ReservationPath held r
serve_all-ReservationPath_example =
    serve_all-ReservationPath server day_of_routes (fresh platform) 30 held
      (begun platform-IsBalanced) refl

serve_all-closed_example :
    find 32 (serve_all server day_of_routes (fresh platform)).db.reservations ≡ some dropped
serve_all-closed_example =
    serve_all-closed server day_of_routes (fresh platform) 32 dropped (begun platform-IsBalanced)
      refl refl
