-- ===== src/Services/Auth.antt =====
-- AuthService of app/services/auth_service.py.
pub mod Exchange
pub mod Rotation
pub mod Entry
use production_library_manag.Prelude.{
  ℕ, ◌+◌, ◌*◌, ◌/◌, Option, none, some, Bool, true, false, not, List, map, String, ltb, ◌==◌,
  if◌then◌else◌,
}
use production_library_manag.Enums.{
  UserRole, UserStatus, MembershipStatus, is_active_user, day, refresh_token_days,
}
use production_library_manag.Errors.{Error}
use production_library_manag.Models.{User, Member, RefreshToken, Db}
use production_library_manag.Session.{
  M, Env, transactional, query, modify, pure, raise, or_raise, raise_if, flush, commit, ◌>>=◌, ◌>>◌,
}
use production_library_manag.Security.{Crypto, create_access_token}
use production_library_manag.Repositories.Users
use production_library_manag.Repositories.Members
use production_library_manag.Repositories.Tokens
use production_library_manag.Services.Reservations.{is_some}

pub record ClientMetadata : Type 0 where
  pub ip_address : Option String
  pub user_agent : Option String
  pub device_name : Option String

abbrev pub new_user : Env → Crypto → (name email password : String) → User
new_user env crypto name email password = record {
  id = env.uuid 0;
  name = name;
  email = email;
  password_hash = crypto.hash_password password;
  role = UserRole.member;
  status = UserStatus.active;
}

abbrev pub new_member : Env → Crypto → User → Member
new_member env crypto user = record {
  id = env.uuid 2;
  user_id = user.id;
  membership_number = crypto.membership_number env.now (env.uuid 1);
  joined_date = env.now / day;
  membership_status = MembershipStatus.active;
  is_deleted = false;
  deleted_at = none;
}

unfoldable pub register_body : Env → Crypto → (name email password : String) → M User
register_body env crypto name email password = do
  existing_user ← Users.get_by_email email
  raise_if (is_some existing_user) Error.email_already_exists
  let user = new_user env crypto name email password
  Users.create user
  flush
  Members.create (new_member env crypto user)
  flush
  pure user

unfoldable pub register : Env → Crypto → (name email password : String) → M User
unfolding register_body
register env crypto name email password =
    transactional (register_body env crypto name email password)

abbrev pub new_token : Env → Crypto → ClientMetadata → (user_id family_id id : ℕ) → RefreshToken
new_token env crypto client user_id family_id id = record {
  id = id;
  user_id = user_id;
  family_id = family_id;
  token_hash = crypto.generate_token_fingerprint crypto.random_token;
  expires_at = env.now + refresh_token_days * day;
  revoked = false;
  ip_address = client.ip_address;
  user_agent = client.user_agent;
  device_name = client.device_name;
}

abbrev pub access_token : Env → Crypto → User → String
access_token env crypto user =
    create_access_token crypto.jose crypto.manager env.now user.id (env.uuid 0) user.role

-- The answer: the access token and the raw refresh token.
unfoldable pub login_body :
    Env → Crypto → (email password : String) → ClientMetadata → M (String × String)
login_body env crypto email password client = do
  found ← Users.get_by_email email
  user ← or_raise found Error.invalid_credentials
  raise_if (not (is_active_user user.status)) Error.inactive_user
  raise_if (not (crypto.verify_password password user.password_hash)) Error.invalid_credentials
  Tokens.create (new_token env crypto client user.id (env.uuid 1) (env.uuid 2))
  flush
  pure (access_token env crypto user, crypto.random_token)

unfoldable pub login :
    Env → Crypto → (email password : String) → ClientMetadata → M (String × String)
unfolding login_body
login env crypto email password client = transactional (login_body env crypto email password client)

abbrev pub revoke : RefreshToken → RefreshToken
revoke t = record t { revoked = true }

-- `for tok in family_tokens: tok.revoked = True`
abbrev pub revoke_in : ℕ → RefreshToken → RefreshToken
revoke_in family_id t = if t.family_id == family_id then revoke t else t

abbrev pub revoke_family : ℕ → Db → Db
revoke_family family_id d = record d { tokens = map (revoke_in family_id) d.tokens }

-- The commit stands before the raise, so the revocations outlive it.
unfoldable pub reuse_detected : RefreshToken → M (String × String)
reuse_detected token_record = do
  modify (revoke_family token_record.family_id)
  flush
  commit
  raise Error.token_revoked

-- `raise` leaves the transaction, which undoes the revocation.
unfoldable pub expire : RefreshToken → M (String × String)
expire token_record = do Tokens.update (revoke token_record); flush; raise Error.token_expired

unfoldable pub rotate : Env → Crypto → ClientMetadata → RefreshToken → M (String × String)
rotate env crypto client token_record = do
  Tokens.update (revoke token_record)
  found ← query (Users.get_by_id token_record.user_id)
  user ← or_raise found Error.inactive_user
  raise_if (not (is_active_user user.status)) Error.inactive_user
  Tokens.create
      (new_token env crypto client token_record.user_id token_record.family_id (env.uuid 1))
  flush
  pure (access_token env crypto user, crypto.random_token)

unfoldable pub refresh_token_body : Env → Crypto → String → ClientMetadata → M (String × String)
unfolding reuse_detected expire rotate
refresh_token_body env crypto raw_refresh_token client = do
  found ← Tokens.get_by_token_hash (crypto.generate_token_fingerprint raw_refresh_token)
  token_record ← or_raise found Error.invalid_refresh_token
  if token_record.revoked
      then reuse_detected token_record
      else (if ltb token_record.expires_at env.now
          then expire token_record
          else rotate env crypto client token_record)

unfoldable pub refresh_token : Env → Crypto → String → ClientMetadata → M (String × String)
unfolding refresh_token_body
refresh_token env crypto raw_refresh_token client =
    transactional (refresh_token_body env crypto raw_refresh_token client)

abbrev pub revoke_found : Option RefreshToken → M (Unit {0})
revoke_found none = pure tt
revoke_found (some token_record) = do Tokens.update (revoke token_record); flush

unfoldable pub logout : Crypto → String → M (Unit {0})
logout crypto raw_refresh_token = transactional (
    Tokens.get_by_token_hash (crypto.generate_token_fingerprint raw_refresh_token) >>= revoke_found)
