-- ===== src/Schemas/Policy.antt =====
-- What the password policy accepts, and what it says of a password that it does not accept.
use production_library_manag.Prelude.{
  ℕ, ◌+◌, ◌≡◌, sym, subst, not, if◌then◌else◌, ◌≤◌, ◌<◌, ◌⊎◌, inl, inr, refl, Option, none, some,
  Bool, true, false, Bool-cases, List, [], ◌∷◌, ◌++◌, any, length, ltb, ◌==◌, arith,
}
use production_library_manag.Schemas.Auth.{
  PasswordError, too_short, too_long, no_uppercase, no_lowercase, no_digit, no_special, is_upper,
  is_lower, specials, is_special, validate_password_strength,
}

-- A character of the password, wherever it stands, is as it should be.
abbrev pub Somewhere : (ℕ → Type 0) → List ℕ → Type 0
Somewhere P v = (before after : List ℕ) × (c : ℕ) × (v ≡ before ++ c ∷ after) × P c

abbrev pub OneOf : List ℕ → ℕ → Type 0
OneOf [] c = ⊥
OneOf (d ∷ ds) c = (c ≡ d) ⊎ OneOf ds c

module _ (is_decimal : ℕ → Bool) where
  -- The rule that an error says was broken (BR-003).
  abbrev pub Rule : PasswordError → List ℕ → Type 0
  Rule too_short v = 8 ≤ length v
  Rule too_long v = length v ≤ 128
  Rule no_uppercase v = Somewhere (λ c. (b'A' ≤ c) × (c ≤ b'Z')) v
  Rule no_lowercase v = Somewhere (λ c. (b'a' ≤ c) × (c ≤ b'z')) v
  Rule no_digit v = Somewhere (λ c. is_decimal c ≡ true) v
  Rule no_special v = Somewhere (OneOf specials) v

abbrev pub rank : PasswordError → ℕ
rank too_short = 0
rank too_long = 1
rank no_uppercase = 2
rank no_lowercase = 3
rank no_digit = 4
rank no_special = 5

rank_lt : (e : PasswordError) → rank e < 6
rank_lt too_short = ground arith
rank_lt too_long = ground arith
rank_lt no_uppercase = ground arith
rank_lt no_lowercase = ground arith
rank_lt no_digit = ground arith
rank_lt no_special = ground arith

ranked : ℕ → PasswordError
ranked n =
    if n == 0
    then too_short
    else if n == 1
    then too_long
    else if n == 2
    then no_uppercase
    else if n == 3
    then no_lowercase
    else if n == 4
    then no_digit
    else no_special

ranked-rank : (e : PasswordError) → ranked (rank e) ≡ e
unfolding ranked
ranked-rank too_short = refl
ranked-rank too_long = refl
ranked-rank no_uppercase = refl
ranked-rank no_lowercase = refl
ranked-rank no_digit = refl
ranked-rank no_special = refl

rank_inj : (e e' : PasswordError) → rank e ≡ rank e' → e ≡ e'
rank_inj e e' h = cc (ranked-rank e, ranked-rank e', h)

module _ (P : ℕ → Type 0) (p : ℕ → Bool) where
  any-Somewhere : ((c : ℕ) → p c ≡ true → P c) → (v : List ℕ) → any p v ≡ true → Somewhere P v
  any-Somewhere f [] h = cc
  any-Somewhere f (c ∷ v) h = elim (Bool-cases (p c)) [
    | inl hit ↦ ([], v, c, refl, f c hit)
    | inr miss ↦
        let (before, after, d, e, holds) = any-Somewhere f v (ground (arith, miss)) in
        (c ∷ before, after, d, cc, holds)
  ]

  any-append_hit : (before after : List ℕ) (c : ℕ) → p c ≡ true → any p (before ++ c ∷ after) ≡ true
  any-append_hit [] after c h = ground arith
  any-append_hit (d ∷ before) after c h = ground (arith, any-append_hit before after c h)

  not-Somewhere : ((c : ℕ) → P c → p c ≡ true) → (v : List ℕ) → any p v ≡ false → Somewhere P v → ⊥
  not-Somewhere f v h (before, after, c, e, holds) =
      cc (e, h, any-append_hit before after c (f c holds))

one_of : (ds : List ℕ) (c : ℕ) → any (λ d. d == c) ds ≡ true → OneOf ds c
one_of [] c h = cc
one_of (d ∷ ds) c h = elim (Bool-cases (d == c)) [
  | inl hit ↦ inl (ground arith)
  | inr miss ↦ inr (one_of ds c (ground (arith, miss)))
]

any-OneOf : (ds : List ℕ) (c : ℕ) → OneOf ds c → any (λ d. d == c) ds ≡ true
any-OneOf [] c h = absurd h
any-OneOf (d ∷ ds) c (inl e) = ground arith
any-OneOf (d ∷ ds) c (inr h) = ground (arith, any-OneOf ds c h)

module _ (is_decimal : ℕ → Bool) (v : List ℕ) where
  -- What the answer says: every rule is met, or the one that is named is the first that is not.
  abbrev pub Verdict : Option PasswordError → Type 0
  Verdict none = (e : PasswordError) → Rule is_decimal e v
  Verdict (some e) =
      (Rule is_decimal e v → ⊥)
      × ((earlier : PasswordError) → rank earlier < rank e → Rule is_decimal earlier v)

  met : PasswordError → Bool
  met too_short = not (ltb (length v) 8)
  met too_long = not (ltb 128 (length v))
  met no_uppercase = any is_upper v
  met no_lowercase = any is_lower v
  met no_digit = any is_decimal v
  met no_special = any is_special v

  met-Rule : (e : PasswordError) → met e ≡ true → Rule is_decimal e v
  unfolding met
  met-Rule too_short h = ground arith
  met-Rule too_long h = ground arith
  met-Rule no_uppercase h = any-Somewhere _ is_upper (λ c e. ground arith) v h
  met-Rule no_lowercase h = any-Somewhere _ is_lower (λ c e. ground arith) v h
  met-Rule no_digit h = any-Somewhere _ is_decimal (λ c e. e) v h
  met-Rule no_special h = any-Somewhere _ is_special (one_of specials) v h

  broken-Rule : (e : PasswordError) → met e ≡ false → Rule is_decimal e v → ⊥
  unfolding met
  broken-Rule too_short h r = ground arith
  broken-Rule too_long h r = ground arith
  broken-Rule no_uppercase h r = not-Somewhere _ is_upper (λ c e. ground arith) v h r
  broken-Rule no_lowercase h r = not-Somewhere _ is_lower (λ c e. ground arith) v h r
  broken-Rule no_digit h r = not-Somewhere _ is_decimal (λ c e. e) v h r
  broken-Rule no_special h r = not-Somewhere _ is_special (any-OneOf specials) v h r

  -- The first rule of a list that is not met.
  first_broken : List PasswordError → Option PasswordError
  first_broken [] = none
  first_broken (e ∷ es) = if met e then first_broken es else some e

  validate-first_broken :
      validate_password_strength is_decimal v
      ≡ first_broken
          (too_short ∷ too_long ∷ no_uppercase ∷ no_lowercase ∷ no_digit ∷ no_special ∷ [])
  unfolding validate_password_strength first_broken met
  validate-first_broken = ground arith

  -- A list of errors from a rank on, to the last.
  abbrev Consecutive : ℕ → List PasswordError → Type 0
  Consecutive n [] = n ≡ 6
  Consecutive n (e ∷ es) = (rank e ≡ n) × Consecutive (n + 1) es

  first_broken-Verdict :
      (n : ℕ) (es : List PasswordError)
      → Consecutive n es
      → ((e : PasswordError) → rank e < n → Rule is_decimal e v)
      → Verdict (first_broken es)
  unfolding first_broken
  first_broken-Verdict n [] last below = λ e. below e (omega (arith, last, rank_lt e))
  first_broken-Verdict n (e ∷ es) (here, later) below = elim (Bool-cases (met e)) [
    | inl fine ↦ rw fine (
        first_broken-Verdict (n + 1) es later (λ e' lt. elim (Bool-cases (ltb (rank e') n)) [
          | inl before ↦ below e' (ground arith)
          | inr after ↦
              let same : e ≡ e' = rank_inj e e' (ground arith) in
              subst (λ x. Rule is_decimal x v) same (met-Rule e fine)
        ]))
    | inr broken ↦ rw broken (broken-Rule e broken, λ e' lt. below e' (omega arith))
  ]

  -- The policy accepts a password exactly if it has 8 to 128 characters and, each somewhere, an
  -- uppercase and a lowercase letter of ASCII, a decimal digit and one of `@$!%*?&`; otherwise it
  -- names the first of these rules that is broken.
  pub validate_password_strength-Verdict : Verdict (validate_password_strength is_decimal v)
  validate_password_strength-Verdict = subst Verdict (sym validate-first_broken) (
      first_broken-Verdict 0
        (too_short ∷ too_long ∷ no_uppercase ∷ no_lowercase ∷ no_digit ∷ no_special ∷ [])
        (refl, (refl, (refl, (refl, (refl, (refl, refl)))))) (λ e lt. absurd (omega arith)))
