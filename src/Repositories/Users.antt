-- ===== src/Repositories/Users.antt =====
-- app/repositories/user_repository.py.
use production_library_manag.Prelude.{ℕ, Option, String, str_eq, select}
use production_library_manag.Prelude.Rows.{find, insert}
use production_library_manag.Models.{User, Db, user_key}
use production_library_manag.Session.{M, query_one, modify}

unfoldable pub get_by_id : ℕ → Db → Option User
get_by_id i d = find i d.users

unfoldable pub get_by_email : String → M (Option User)
get_by_email email = query_one (λ d. select (λ u. str_eq u.email email) d.users)

abbrev pub added : User → Db → Db
added u d = record d { users = insert u d.users }

unfoldable pub create : User → M (Unit {0})
create u = modify (added u)
