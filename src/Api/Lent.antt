-- ===== src/Api/Lent.antt =====
-- The route for borrowing lends to the caller's own profile.
use production_library_manag.Prelude.{ℕ, ◌≡◌}
use production_library_manag.Models.{BorrowRecord, Db}
use production_library_manag.Session.{Env, Session}
use production_library_manag.Repositories.Books
use production_library_manag.Repositories.Members
use production_library_manag.Repositories.Borrows as Loans
use production_library_manag.Services.Borrows.{Config, new_loan}
use production_library_manag.Api.Routes

module _ (C : Type 0) (env : Env) (cfg : Config) (m i : ℕ) where
  abbrev Lent : BorrowRecord → Db → Type 0
  Lent r d = C × (r ≡ new_loan env cfg m i)
