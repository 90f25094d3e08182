-- ===== src/Repositories/Members.antt =====
-- app/repositories/member_repository.py. A soft-deleted member is invisible to every query.
use production_library_manag.Prelude.{
  ℕ, Option, none, some, Bool, true, false, ◌&&◌, not, List, String, str_eq, if◌then◌else◌, select,
  ◌==◌,
}
use production_library_manag.Prelude.Rows.{find, put, insert}
use production_library_manag.Models.{Member, Db, member_key}
use production_library_manag.Session.{
  M, Env, member_row, lock, query, query_one, modify, pure, ◌>>=◌, ◌>>◌,
}
use production_library_manag.Repositories.Base.{page_of}

abbrev pub live : Option Member → Option Member
live none = none
live (some m) = if m.is_deleted then none else some m

unfoldable pub get_by_id : ℕ → Db → Option Member
get_by_id i d = live (find i d.members)

unfoldable pub get_by_id_for_update : Env → ℕ → M (Option Member)
unfolding get_by_id
get_by_id_for_update env i = do lock env (member_row i); query (get_by_id i)

unfoldable pub get_all : ℕ → ℕ → Db → List Member
get_all skip limit d = page_of skip limit (select (λ m. not m.is_deleted) d.members)

unfoldable pub get_by_user_id : ℕ → M (Option Member)
get_by_user_id user = query_one (λ d. select (λ m. m.user_id == user && not m.is_deleted) d.members)

unfoldable pub get_by_membership_number : String → M (Option Member)
get_by_membership_number number =
    query_one λ d. select (λ m. str_eq m.membership_number number && not m.is_deleted) d.members

abbrev pub added : Member → Db → Db
added m d = record d { members = insert m d.members }

unfoldable pub create : Member → M (Unit {0})
create m = modify (added m)

unfoldable pub delete : Env → ℕ → M Bool
unfolding get_by_id
delete env i = do
  found ← query (get_by_id i)
  elim found [
    | none ↦ pure false
    | some m ↦
        modify (λ d. record d {
          members = put (record m { is_deleted = true; deleted_at = some env.now }) d.members;
        })
        >> pure true
  ]
