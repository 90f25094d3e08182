-- ===== src/Examples/Auth.antt =====
-- The theorems on refresh tokens: one user with two tokens of one family and one of another.
use production_library_manag.Prelude.{
  ◌+◌, some, ltb, if◌then◌else◌, ℕ, ◌*◌, ◌≡◌, refl, none, Bool, true, false, [], ◌∷◌, String,
  str_eq, arith, count, select,
}
use production_library_manag.Enums.{UserRole, UserStatus, day, second}
use production_library_manag.Errors.{Error}
use production_library_manag.Models.{User, RefreshToken, Db, satisfies_constraints}
use production_library_manag.Session.{ok, err}
use production_library_manag.Security.{
  Crypto, Jose, Payload, claims, jwt_manager, timestamp, decode_and_validate_token,
  create_access_token,
}
use production_library_manag.Security.Lifetime.{IsFaithful, decode-create, decode-create_late}
use production_library_manag.Repositories.Users
use production_library_manag.Services.Auth.{ClientMetadata, refresh_token}
use production_library_manag.Services.Auth.Exchange.{IsExchanged}
use production_library_manag.Services.Auth.Rotation.{
  Presented, is_live_in, is_outside, refresh_token-reuse, refresh_token-expired,
  refresh_token-rotates,
}
use production_library_manag.Examples.{env, fresh}

-- A python-jose that issues one token, and knows its claims.
abbrev issued : Payload
issued = claims (jwt_manager "secret") env.now 1 100 UserRole.member

abbrev jose : Jose
jose = record {
  encode = λ p key algorithm. "access";
  decode = λ now token key algorithm audience issuer leeway.
      if ltb (timestamp env.now + 15 * 60 + leeway) now then none else some issued;
}

abbrev pub crypto : Crypto
crypto = record {
  hash_password = λ p. p;
  verify_password = λ p h. str_eq p h;
  random_token = "drawn";
  generate_token_fingerprint = λ t. t;
  membership_number = λ now random. "LMP";
  jose = jose;
  manager = jwt_manager "secret";
}

abbrev pub client : ClientMetadata
client = record { ip_address = none; user_agent = none; device_name = none }

abbrev pub user : User
user = record {
  id = 1;
  name = "Ada";
  email = "ada@example.org";
  password_hash = "secret";
  role = UserRole.member;
  status = UserStatus.active;
}

abbrev token : ℕ → ℕ → String → ℕ → Bool → RefreshToken
token i family hash expires revoked = record {
  id = i;
  user_id = 1;
  family_id = family;
  token_hash = hash;
  expires_at = expires;
  revoked = revoked;
  ip_address = none;
  user_agent = none;
  device_name = none;
}

abbrev used : RefreshToken
used = token 40 7 "used" (25 * day) true

abbrev current : RefreshToken
current = token 41 7 "current" (26 * day) false

abbrev late : RefreshToken
late = token 42 8 "late" (19 * day) false

abbrev pub accounts : Db
accounts = record {
  users = user ∷ [];
  members = [];
  books = [];
  borrows = [];
  reservations = [];
  tokens = used ∷ current ∷ late ∷ [];
}

refresh_token-reuse_example :
    ((refresh_token env crypto "used" client (fresh accounts)).0 ≡ err Error.token_revoked)
    × (count
          (is_live_in 7)
          (refresh_token env crypto "used" client (fresh accounts)).1.committed.tokens
        ≡ 0)
    × (select
          (is_outside 7)
          (refresh_token env crypto "used" client (fresh accounts)).1.committed.tokens
        ≡ select (is_outside 7) accounts.tokens)
unfolding satisfies_constraints
refresh_token-reuse_example =
    refresh_token-reuse env crypto "used" client (fresh accounts) used refl refl refl refl

refresh_token-expired_example :
    ((refresh_token env crypto "late" client (fresh accounts)).0 ≡ err Error.token_expired)
    × ((refresh_token env crypto "late" client (fresh accounts)).1.committed ≡ accounts)
    × Presented env crypto "late" client late
        (refresh_token env crypto "late" client (fresh accounts)).1.db
unfolding satisfies_constraints
refresh_token-expired_example =
    refresh_token-expired env crypto "late" client (fresh accounts) late refl refl refl
      (omega arith) refl

refresh_token-rotates_example :
    ((refresh_token env crypto "current" client (fresh accounts)).0 ≡ ok ("access", "drawn"))
    × IsExchanged env.now "current" "drawn" client current accounts
        (refresh_token env crypto "current" client (fresh accounts)).1.committed
unfolding satisfies_constraints Users.get_by_id create_access_token
refresh_token-rotates_example =
    refresh_token-rotates env crypto "current" client (fresh accounts) current user refl refl refl
      refl (omega arith) refl refl refl refl

pub jose-IsFaithful : IsFaithful jose (jwt_manager "secret") issued
jose-IsFaithful = record {
  returns = λ now nbf exp issuer audience n e start end. ground arith;
  refuses = λ now exp e late. ground arith;
}

decode-create_example :
    decode_and_validate_token jose
      (jwt_manager "secret")
      (20 * day + 899 * second)
      (create_access_token jose (jwt_manager "secret") (20 * day) 1 100 UserRole.member)
    ≡ some issued
decode-create_example =
    decode-create jose (jwt_manager "secret") (20 * day) (20 * day + 899 * second) 1 100
      UserRole.member jose-IsFaithful (omega arith) (omega arith)

decode-create_late_example :
    decode_and_validate_token jose
      (jwt_manager "secret")
      (21 * day)
      (create_access_token jose (jwt_manager "secret") (20 * day) 1 100 UserRole.member)
    ≡ none
decode-create_late_example =
    decode-create_late jose (jwt_manager "secret") (20 * day) (21 * day) 1 100 UserRole.member
      jose-IsFaithful (omega arith)
