-- ===== src/Examples/Operations.antt =====
-- The theorems on the password policy, the counters and the migrations, at small inputs.
use production_library_manag.Prelude.{
  ℕ, ◌+◌, ◌==◌, ◌≡◌, refl, Option, none, some, Bool, true, false, List, [], ◌∷◌, ◌++◌, leb, ◌&&◌,
  String, length, count, All,
}
use production_library_manag.Schemas.Auth.{codes, validate_password_strength}
use production_library_manag.Schemas.Policy.{Verdict, validate_password_strength-Verdict}
use production_library_manag.Migrations.Catalogue.{Table, string, column, primary_key, execute_all}
use production_library_manag.Migrations.Reservations
use production_library_manag.Migrations.Reversal.{upgrades, downgrades, execute_all-downgrades}
use production_library_manag.Api.Dependencies.{Http}
use production_library_manag.Api.Responses.{Route}
use production_library_manag.Api.Telemetry.{Telemetry, Call, converse}
use production_library_manag.Api.Counted.{uncorrelated, failed, converse-counted}
use production_library_manag.Examples.{fresh}
use production_library_manag.Examples.Api.{caller, server, platform}

abbrev is_digit : ℕ → Bool
is_digit c = leb b'0' c && leb c b'9'

validate_password_strength-Verdict_example :
    Verdict is_digit
      (codes "Secret-0123")
      (validate_password_strength is_digit (codes "Secret-0123"))
validate_password_strength-Verdict_example =
    validate_password_strength-Verdict is_digit (codes "Secret-0123")

-- The table in which Alembic notes the revision.
abbrev alembic_version : Table
alembic_version = record {
  name = "alembic_version";
  columns = column "version_num" (string 32) false ∷ [];
  constraints = primary_key "version_num" ∷ [];
  indexes = [];
}

execute_all-downgrades_example :
    (execute_all false (upgrades ++ downgrades) (alembic_version ∷ [])
      ≡ some (alembic_version ∷ []))
    × (execute_all true (upgrades ++ Reservations.downgrade) (alembic_version ∷ []) ≡ none)
execute_all-downgrades_example = execute_all-downgrades (alembic_version ∷ []) (
  (refl, refl),
  ((refl, refl), ((refl, refl), ((refl, refl), ((refl, refl), ((refl, refl), tt))))),
)

abbrev call : Option String → Call
call id = record {
  method = "POST";
  path = "/api/v1/reservations";
  request_id = id;
  fresh_id = "c0ffee";
}

-- A book that is there, one that is on the shelf, and one that is not known.
abbrev calls : List (Call × Http × Route)
calls =
    (call (some "r1"), caller, Route.get_book 10)
    ∷ (call none, caller, Route.place_reservation 10)
    ∷ (call (some ""), caller, Route.get_book 99)
    ∷ []

abbrev silent : Telemetry
silent = record {
  http_requests_total = [];
  http_request_durations = [];
  http_exceptions_total = [];
}

converse-counted_example :
    (length (converse server calls (fresh platform) silent).telemetry.http_requests_total
        + count uncorrelated (converse server calls (fresh platform) silent).answers
      ≡ 3)
    × (length (converse server calls (fresh platform) silent).telemetry.http_exceptions_total
        ≡ length silent.http_exceptions_total
          + count failed (converse server calls (fresh platform) silent).answers)
    × All
        (λ a. uncorrelated a ≡ (a.response.status == 500))
        (converse server calls (fresh platform) silent).answers
converse-counted_example = converse-counted server calls (fresh platform) silent
