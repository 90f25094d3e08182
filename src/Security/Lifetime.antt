-- ===== src/Security/Lifetime.antt =====
-- How long an access token is good.
use production_library_manag.Prelude.{ℕ, ◌+◌, ◌*◌, ◌≡◌, ◌≤◌, ◌<◌, refl, none, some, arith}
use production_library_manag.Enums.{UserRole, second}
use production_library_manag.Security.{
  Jose, JwtManager, Payload, timestamp, claims, create_access_token, decode_and_validate_token,
}

-- What python-jose documents of a payload: signed, and naming the audience and the issuer, it comes
-- back under the verification key while its times hold with the leeway, and past its expiry with
-- the leeway it is an error.
pub record IsFaithful (jose : Jose) (manager : JwtManager) (p : Payload) : Type 0 where
  pub returns :
      (now nbf exp : ℕ)
      → p.iss ≡ some manager.issuer
      → p.aud ≡ some manager.audience
      → p.nbf ≡ some nbf
      → p.exp ≡ some exp
      → nbf ≤ now + 60
      → now ≤ exp + 60
      → jose.decode now
          (jose.encode p manager.signing_key manager.algorithm)
          manager.verification_key
          manager.algorithm
          manager.audience
          manager.issuer
          60
        ≡ some p
  pub refuses :
      (now exp : ℕ)
      → p.exp ≡ some exp
      → exp + 60 < now
      → jose.decode now
          (jose.encode p manager.signing_key manager.algorithm)
          manager.verification_key
          manager.algorithm
          manager.audience
          manager.issuer
          60
        ≡ none

-- With a faithful python-jose, the token that was made at one instant is decoded to its claims at
-- any later one up to the minutes that the manager sets.
pub decode-create :
    (jose : Jose) (manager : JwtManager) (made now subject jti : ℕ) (role : UserRole)
    → IsFaithful jose manager (claims manager made subject jti role)
    → made ≤ now
    → now ≤ made + manager.access_token_expire_minutes * 60 * second
    → decode_and_validate_token jose manager now
        (create_access_token jose manager made subject jti role)
      ≡ some (claims manager made subject jti role)
unfolding decode_and_validate_token create_access_token
decode-create jose manager made now subject jti role h later in_time =
    let back =
      h.returns (timestamp now) (timestamp made)
        (timestamp (made + manager.access_token_expire_minutes * 60 * second)) refl refl refl refl
        (omega arith) (omega arith) in
    simp back

-- More than a minute and a second after those minutes the token is refused.
pub decode-create_late :
    (jose : Jose) (manager : JwtManager) (made now subject jti : ℕ) (role : UserRole)
    → IsFaithful jose manager (claims manager made subject jti role)
    → made + manager.access_token_expire_minutes * 60 * second + 61 * second ≤ now
    → decode_and_validate_token jose manager now
        (create_access_token jose manager made subject jti role)
      ≡ none
unfolding decode_and_validate_token create_access_token
decode-create_late jose manager made now subject jti role h late =
    let gone =
      h.refuses (timestamp now)
        (timestamp (made + manager.access_token_expire_minutes * 60 * second)) refl (omega arith) in
    simp gone
