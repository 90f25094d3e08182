-- ===== src/Security.antt =====
-- JWTManager of app/core/security/jwt_manager.py, and what the services take from the rest of
-- app/core/security. The signing and checking of python-jose are parameters.
pub mod Lifetime
use production_library_manag.Prelude.{
  ℕ, ◌+◌, ◌*◌, ◌/◌, Option, none, some, Bool, true, false, ◌&&◌, String,
}
use production_library_manag.Enums.{UserRole, second}

-- A decoded payload; a claim may be missing. A subject is the text of a user's id.
pub record Payload : Type 0 where
  pub sub : Option ℕ
  pub jti : Option ℕ
  pub iss : Option String
  pub aud : Option String
  pub iat : Option ℕ
  pub nbf : Option ℕ
  pub exp : Option ℕ
  pub role : Option UserRole

-- `jwt.encode`, and `jwt.decode` with the options that the manager gives; times are Unix seconds,
-- and none stands for JWTError.
pub record Jose : Type 0 where
  pub encode : Payload → (key algorithm : String) → String
  pub decode :
      (now : ℕ) (token key algorithm audience issuer : String) (leeway : ℕ) → Option Payload

pub record JwtManager : Type 0 where
  pub signing_key : String
  pub verification_key : String
  pub algorithm : String
  pub issuer : String
  pub audience : String
  pub access_token_expire_minutes : ℕ

-- `JWTManager.__init__` without a verification key, with the arguments that
-- app/dependencies/auth.py gives.
abbrev pub jwt_manager : String → JwtManager
jwt_manager secret_key = record {
  signing_key = secret_key;
  verification_key = secret_key;
  algorithm = "HS256";
  issuer = "library-management-platform";
  audience = "library-management-platform-clients";
  access_token_expire_minutes = 15;
}

-- `int(now.timestamp())`
abbrev pub timestamp : ℕ → ℕ
timestamp now = now / second

abbrev pub claims : JwtManager → (now subject jti : ℕ) → UserRole → Payload
claims manager now subject jti role = record {
  sub = some subject;
  jti = some jti;
  iss = some manager.issuer;
  aud = some manager.audience;
  iat = some (timestamp now);
  nbf = some (timestamp now);
  exp = some (timestamp (now + manager.access_token_expire_minutes * 60 * second));
  role = some role;
}

unfoldable pub create_access_token : Jose → JwtManager → (now subject jti : ℕ) → UserRole → String
create_access_token jose manager now subject jti role =
    jose.encode (claims manager now subject jti role) manager.signing_key manager.algorithm

abbrev is_there {ℓ} : {A : Type ℓ} → Option A → Bool
is_there none = false
is_there (some a) = true

abbrev pub has_required_claims : Payload → Bool
has_required_claims p =
    is_there p.sub
    && is_there p.jti
    && is_there p.exp
    && is_there p.iss
    && is_there p.aud
    && is_there p.iat
    && is_there p.nbf

abbrev pub if_complete : Option Payload → Option Payload
if_complete none = none
if_complete (some p) = elim (has_required_claims p) [ true ↦ some p | false ↦ none ]

unfoldable pub decode_and_validate_token : Jose → JwtManager → (now : ℕ) → String → Option Payload
decode_and_validate_token jose manager now token = if_complete (
    jose.decode (timestamp now) token manager.verification_key manager.algorithm manager.audience
      manager.issuer 60)

-- What a request gets from the password hasher, the JWT manager and the token manager;
-- `random_token` is the token that it draws. The membership number's year and six random digits
-- are formatted outside.
pub record Crypto : Type 0 where
  pub hash_password : String → String
  pub verify_password : (password password_hash : String) → Bool
  pub random_token : String
  pub generate_token_fingerprint : String → String
  pub membership_number : (now random : ℕ) → String
  pub jose : Jose
  pub manager : JwtManager
