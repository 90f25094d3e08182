-- ===== src/Schemas/Auth.antt =====
-- app/schemas/auth.py: `PasswordPolicyMixin.validate_password_strength`. A password is the list of
-- its code points. Which of them `\d` of Python's `re` matches, the decimal digits of every script,
-- is a parameter.
use Prim.Native.String.{String}
use Prim.Native.Char.{code}
use production_library_manag.Prelude.{
  ℕ, Option, none, some, Bool, ◌&&◌, List, [], ◌∷◌, any, length, ltb, leb, ◌==◌, if◌then◌else◌,
}

-- The code points of a text.
abbrev pub codes : String → List ℕ
codes String.[] = []
codes (String.◌∷◌ c s) = code c ∷ codes s

-- The messages of the policy, in the order of its tests.
pub data PasswordError : Type 0 where
  too_short too_long no_uppercase no_lowercase no_digit no_special : PasswordError

abbrev pub is_upper : ℕ → Bool
is_upper c = leb b'A' c && leb c b'Z'

abbrev pub is_lower : ℕ → Bool
is_lower c = leb b'a' c && leb c b'z'

-- `@$!%*?&`
abbrev pub specials : List ℕ
specials = codes "@$!%*?&"

abbrev pub is_special : ℕ → Bool
is_special c = any (λ d. d == c) specials

-- The answer is the error that is raised, if one is.
unfoldable pub validate_password_strength : (ℕ → Bool) → List ℕ → Option PasswordError
validate_password_strength is_decimal v =
    if ltb (length v) 8
    then some PasswordError.too_short
    else if ltb 128 (length v)
    then some PasswordError.too_long
    else if any is_upper v
    then if any is_lower v
      then if any is_decimal v
        then if any is_special v then none else some PasswordError.no_special
        else some PasswordError.no_digit
      else some PasswordError.no_lowercase
    else some PasswordError.no_uppercase
