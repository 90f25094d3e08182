-- ===== src/Lib.antt =====
-- A model of the library platform's business core, and the theorems that make it correct.
--
-- The program is a web service on a relational database. A route of app/api/v1 calls a service of
-- app/services; the service reads and writes rows through the repositories of app/repositories,
-- within the transaction that the decorator of app/db/transaction.py opens and ends.
--
-- The files and what they model:
--   Enums         app/domain/enums.py, the constants of app/core/constants.py and app/core/config.py
--   Errors        app/core/exceptions.py, and the library exceptions that the services let through
--   Models        the tables of app/models with their constraints; `Db` holds one list of rows each
--   Schemas       the password policy of app/schemas/auth.py
--   Migrations    the revisions of migrations/versions as operations on a catalogue of tables, and
--                 what the tables make the database refuse
--   Session       AsyncSession and `@transactional` (app/db/transaction.py): Session/Monad has the
--                 state and the actions, the other files the rules for proofs about actions
--   Security      app/core/security/jwt_manager.py
--   Repositories  app/repositories/base.py and the repositories of books, members, borrow
--                 records, reservations, users, refresh tokens and the dashboard
--   Services      app/services/book_service.py, reservation_service.py, borrow_service.py with the
--                 fine strategy in Services/Fine, auth_service.py and dashboard_service.py
--   Requests      a request on books, loans and reservations as the service call that its route
--                 makes, and a history of requests
--   Inventory     the accounting of copies over the services of those requests
--   Limits        the limits on loans and on reservations over the same services
--   Progress      that the sweep, a return and the queue get on when no lock is refused
--   Api           Api/Dependencies has the authentication of app/dependencies/auth.py, Api/Routes the
--                 routes of app/api/v1, Api/Responses the exception handlers of app/main.py, every
--                 route as one function, `serve`, a history of routes, `serve_all`, and Api/Telemetry
--                 the middleware with the counters
--   Lifecycle     what may become of a loan and of a reservation, as step relations apart from the
--                 code, and that the services keep to them
--   Examples      the theorems at a small library
--
-- A service method `f` is an action `f`: a function from the session to a result and the session.
-- `f_body` is what the decorator wraps. A raise keeps what was assigned before it; the outermost
-- block rolls that back. A repository's query is a function on the database, or an action where it
-- locks rows or can fail.
--
-- How the state corresponds: a table is a list of rows in insertion order; an object that a service
-- changes is a record that `update` puts back under its id. UUIDs and instants (microseconds) are
-- natural numbers, money is in whole cents. A request reads the clock once and draws its UUIDs from
-- a sequence that is an argument. Which locks the database refuses is an argument too; a refused
-- lock raises OperationalError. A flush checks the CHECK, NOT NULL, primary key and unique
-- constraints on the whole database. No function needs fuel: the loops are over lists.
--
-- A route of Api is its guard, the look-up of the caller's member profile where the route makes one,
-- and the call of the service; Requests has the service calls alone.
--
-- A migration's operation is a value, and a catalogue of tables the state; an operation that the
-- database would refuse ends the run. Server defaults and names of constraints are left out.
--
-- Not modelled: what pydantic validates in the bodies apart from the password, the JSON of the
-- answers, log lines, tracing and the health checks, the engine and its pool, and the script that
-- runs Alembic. Requests run one after another: what the row locks are to guarantee between
-- concurrent transactions is not modelled. What is not in the repository is a parameter: the
-- database's case-insensitive LIKE, AVG, TIMESTAMPDIFF and the collation, whether it keeps the
-- indexes that foreign keys need, Python's `round`, `lower`, `in` on strings and decimal digits,
-- python-jose, the password hashes and the random tokens. That the handler of `Exception` runs
-- outside the middleware is Starlette's order of layers.
pub mod Prelude
pub mod Enums
pub mod Schemas
pub mod Errors
pub mod Models
pub mod Migrations
pub mod Session
pub mod Security
pub mod Repositories
pub mod Services
pub mod Inventory
pub mod Progress
pub mod Lifecycle
pub mod Limits
pub mod Requests
pub mod Api
pub mod Examples
