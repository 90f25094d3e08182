-- ===== src/Api/Dependencies.antt =====
-- app/dependencies/auth.py: who calls a route, and whether they may.
use production_library_manag.Prelude.{ℕ, Option, none, some, Bool, true, false, not, String, str_eq}
use production_library_manag.Enums.{UserRole, is_active_user}
use production_library_manag.Errors.{Error}
use production_library_manag.Models.{User, Member}
use production_library_manag.Session.{M, Env, query, pure, or_raise, raise_if, ◌>>=◌, ◌>>◌}
use production_library_manag.Security.{Crypto, Payload, decode_and_validate_token}
use production_library_manag.Repositories.Users
use production_library_manag.Repositories.Members

-- The Authorization header as HTTPBearer splits it.
pub record Credentials : Type 0 where
  pub scheme : String
  pub credentials : String

-- A request: what it gets from outside, and its headers. `lower` is Python's `str.lower`.
pub record Http : Type 0 where
  pub env : Env
  pub crypto : Crypto
  pub lower : String → String
  pub authorization : Option Credentials
  pub client_host : Option String
  pub user_agent : Option String

abbrev pub is_bearer : Http → Option Credentials → Bool
is_bearer http none = false
is_bearer http (some c) = str_eq (http.lower c.scheme) "bearer"

-- The payload of the token, if the header is there and the token is valid.
unfoldable pub token_payload : Http → Option Credentials → Option Payload
token_payload http none = none
token_payload http (some c) =
    decode_and_validate_token http.crypto.jose http.crypto.manager http.env.now c.credentials

abbrev pub subject_of : Payload → Option ℕ
subject_of p = p.sub

unfoldable pub get_current_user : Http → M User
unfolding token_payload
get_current_user http = do
  raise_if (not (is_bearer http http.authorization)) Error.unauthorized
  payload ← or_raise (token_payload http http.authorization) Error.unauthorized
  user_id ← or_raise (subject_of payload) Error.unauthorized
  found ← query (Users.get_by_id user_id)
  user ← or_raise found Error.unauthorized
  raise_if (not (is_active_user user.status)) Error.inactive_user
  pure user

-- The role lists that the routes give.
abbrev pub is_staff : UserRole → Bool
is_staff UserRole.admin = true
is_staff UserRole.librarian = true
is_staff UserRole.member = false

abbrev pub is_member : UserRole → Bool
is_member UserRole.member = true
is_member _ = false

-- `RoleRequirement`
unfoldable pub require_role : (UserRole → Bool) → Http → M User
unfolding get_current_user
require_role allowed http = do
  current_user ← get_current_user http
  raise_if (not (allowed current_user.role)) Error.forbidden
  pure current_user

-- The profile that the member routes look up.
unfoldable pub current_member : User → M Member
unfolding Members.get_by_user_id
current_member user = do found ← Members.get_by_user_id user.id; or_raise found Error.forbidden
