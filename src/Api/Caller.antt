-- ===== src/Api/Caller.antt =====
-- What the authentication of a request establishes, and how it refuses.
use production_library_manag.Prelude.{ℕ, ◌≡◌, refl, some, Bool, true, false, not, arith}
use production_library_manag.Enums.{UserRole, is_active_user}
use production_library_manag.Errors.{Error}
use production_library_manag.Models.{User, Db, user_key}
use production_library_manag.Prelude.Rows.{key-find}
use production_library_manag.Session.{pure}
use production_library_manag.Session.Logic.{
  Ensures, raise_if-Ensures, or_raise-Ensures, query-Ensures, found-Ensures, >>=-Ensures,
}
use production_library_manag.Security.{Payload}
use production_library_manag.Repositories.Users
use production_library_manag.Api.Dependencies.{
  Http, is_bearer, token_payload, subject_of, get_current_user, require_role,
}

-- The request carries a bearer token that is valid now, its subject is the id of the user's row,
-- and the user is active.
pub record IsCaller (http : Http) (d : Db) (user : User) : Type 0 where
  pub payload : Payload
  pub bearer : is_bearer http http.authorization ≡ true
  pub valid : token_payload http http.authorization ≡ some payload
  pub subject : payload.sub ≡ some user.id
  pub row : Users.get_by_id user.id d ≡ some user
  pub active : is_active_user user.status ≡ true

pub is_false : (b : Bool) → not b ≡ false → b ≡ true
is_false true h = refl
is_false false h = ground (arith, h)

row_of :
    (http : Http) (p : Payload) (i : ℕ) (u : User) (d : Db)
    → is_bearer http http.authorization ≡ true
    → token_payload http http.authorization ≡ some p
    → p.sub ≡ some i
    → Users.get_by_id i d ≡ some u
    → is_active_user u.status ≡ true
    → IsCaller http d u
unfolding Users.get_by_id
row_of http p i u d b v s r a =
    let same : u.id ≡ i = key-find i d.users u r in
    record {
      payload = p;
      bearer = b;
      valid = v;
      subject = ground (arith, same, s);
      row = ground (arith, same, r);
      active = a;
    }

module _ (http : Http) where
  abbrev Bearer : Db → Type 0
  Bearer d = Unit {0} × (not (is_bearer http http.authorization) ≡ false)

  abbrev Valid : Payload → Db → Type 0
  Valid p d = Bearer d × (token_payload http http.authorization ≡ some p)

  abbrev Subject : Payload → ℕ → Db → Type 0
  Subject p i d = Valid p d × (subject_of p ≡ some i)

  abbrev Row : Payload → ℕ → User → Db → Type 0
  Row p i u d = Subject p i d × (Users.get_by_id i d ≡ some u)

  accepted :
      (p : Payload) (i : ℕ) (u : User)
      → Ensures
          (λ d. Row p i u d × (not (is_active_user u.status) ≡ false))
          (pure u)
          (λ v d. IsCaller http d v)
  accepted p i u = record {
    on_ok = λ s h.
        row_of http p i u s.db (is_false _ h.0.0.0.0.1) h.0.0.0.1 h.0.0.1 h.0.1 (is_false _ h.1);
  }

  pub get_current_user-IsCaller :
      Ensures (λ _. Unit {0}) (get_current_user http) (λ u d. IsCaller http d u)
  unfolding get_current_user
  get_current_user-IsCaller =
      >>=-Ensures _ _ (raise_if-Ensures (λ _. Unit {0}) _ Error.unauthorized) λ _.
        >>=-Ensures _ _ (or_raise-Ensures Bearer _ Error.unauthorized) λ p.
          >>=-Ensures _ _ (or_raise-Ensures (Valid p) _ Error.unauthorized) λ i.
            >>=-Ensures _ _ (query-Ensures (Subject p i) (Users.get_by_id i)) λ o.
              >>=-Ensures _ _
                (found-Ensures {P = Subject p i} (Users.get_by_id i) o Error.unauthorized)
                λ u.
                  >>=-Ensures _ _
                    (raise_if-Ensures (Row p i u) (not (is_active_user u.status))
                      Error.inactive_user)
                    λ _. accepted p i u

  pub require_role-IsCaller :
      (allowed : UserRole → Bool)
      → Ensures
          (λ _. Unit {0})
          (require_role allowed http)
          (λ u d. IsCaller http d u × (allowed u.role ≡ true))
  unfolding require_role
  require_role-IsCaller allowed = >>=-Ensures _ _ get_current_user-IsCaller λ u.
      >>=-Ensures _ _
        (raise_if-Ensures (λ d. IsCaller http d u) (not (allowed u.role)) Error.forbidden)
        λ _. record { on_ok = λ s h. (h.0, is_false _ h.1) }
