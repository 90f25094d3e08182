-- ===== src/Repositories/Tokens.antt =====
-- app/repositories/refresh_token_repository.py.
use production_library_manag.Prelude.{ℕ, Option, Bool, List, String, str_eq, select, ◌==◌}
use production_library_manag.Prelude.Rows.{put, insert}
use production_library_manag.Models.{RefreshToken, Db, token_key}
use production_library_manag.Session.{M, query_one, modify}

abbrev pub has_hash : String → RefreshToken → Bool
has_hash token_hash t = str_eq t.token_hash token_hash

unfoldable pub get_by_token_hash : String → M (Option RefreshToken)
get_by_token_hash token_hash = query_one (λ d. select (has_hash token_hash) d.tokens)

unfoldable pub get_all_by_user_id : ℕ → Db → List RefreshToken
get_all_by_user_id user d = select (λ t. t.user_id == user) d.tokens

abbrev pub save : RefreshToken → Db → Db
save t d = record d { tokens = put t d.tokens }

unfoldable pub update : RefreshToken → M (Unit {0})
update t = modify (save t)

abbrev pub added : RefreshToken → Db → Db
added t d = record d { tokens = insert t d.tokens }

unfoldable pub create : RefreshToken → M (Unit {0})
create t = modify (added t)
