-- ===== src/Prelude/Lists.antt =====
-- Lists measured by native numbers, under the library's names, and Boolean selections from them.
use Prim.Native.Nat.{ℕ, zero, suc, ◌+◌, ◌≤◌}
use mathlib.Core.Path.{◌≡◌, refl}
use mathlib.Core.Bool.{Bool, true, false, ◌&&◌, ◌||◌}
use mathlib.Core.List.{List, [], ◌∷◌, ◌++◌}
use native.Mathlib.Omega.{arith}
use production_library_manag.Prelude.Tests.{if◌then◌else◌}

module _ {ℓ} {A : Type ℓ} where
  abbrev pub length : List A → ℕ
  length [] = 0
  length (x ∷ xs) = suc (length xs)

  abbrev pub take : ℕ → List A → List A
  take zero xs = []
  take (suc n) [] = []
  take (suc n) (x ∷ xs) = x ∷ take n xs

  abbrev pub drop : ℕ → List A → List A
  drop zero xs = xs
  drop (suc n) [] = []
  drop (suc n) (x ∷ xs) = drop n xs

  -- The rows that pass a test, in their order.
  abbrev pub select : (A → Bool) → List A → List A
  select p [] = []
  select p (x ∷ xs) = let rest = select p xs in if p x then x ∷ rest else rest

  abbrev pub any : (A → Bool) → List A → Bool
  any p [] = false
  any p (x ∷ xs) = p x || any p xs

  abbrev pub all : (A → Bool) → List A → Bool
  all p [] = true
  all p (x ∷ xs) = p x && all p xs

  -- How often a test passes.
  abbrev pub count : (A → Bool) → List A → ℕ
  count p [] = 0
  count p (x ∷ xs) = (if p x then 1 else 0) + count p xs

  pub length-append : (xs ys : List A) → length (xs ++ ys) ≡ length xs + length ys
  length-append [] ys = omega arith
  length-append (x ∷ xs) ys = omega (arith, length-append xs ys)

  pub length-select : (p : A → Bool) (xs : List A) → length (select p xs) ≡ count p xs
  length-select p [] = refl
  length-select p (x ∷ xs) = ground (arith, length-select p xs)

  pub length-take-le : (n : ℕ) (xs : List A) → length (take n xs) ≤ n
  length-take-le zero xs = omega arith
  length-take-le (suc n) [] = omega arith
  length-take-le (suc n) (x ∷ xs) = omega (arith, length-take-le n xs)

  pub count-append : (p : A → Bool) (xs ys : List A) → count p (xs ++ ys) ≡ count p xs + count p ys
  count-append p [] ys = omega arith
  count-append p (x ∷ xs) ys = omega (arith, count-append p xs ys)

  abbrev pub All {κ} : (A → Type κ) → List A → Type κ
  All P [] = Unit
  All P (x ∷ xs) = P x × All P xs

  pub All-mono {κ μ} :
      {P : A → Type κ} {Q : A → Type μ} (xs : List A) → ((x : A) → P x → Q x) → All P xs → All Q xs
  All-mono [] f h = tt
  All-mono (x ∷ xs) f h = (f x h.0, All-mono xs f h.1)

  pub count_mono :
      (p q : A → Bool) (xs : List A) → ((x : A) → p x ≡ true → q x ≡ true) → count p xs ≤ count q xs
  count_mono p q [] h = omega arith
  count_mono p q (x ∷ xs) h = ground (arith, h x, count_mono p q xs h)

  pub All-and {κ μ} :
      (P : A → Type κ) (Q : A → Type μ) (xs : List A)
      → All P xs
      → All Q xs
      → All (λ x. P x × Q x) xs
  All-and P Q [] p q = tt
  All-and P Q (x ∷ xs) p q = ((p.0, q.0), All-and P Q xs p.1 q.1)

  -- The total of a number that each row has.
  abbrev pub sum_of : (A → ℕ) → List A → ℕ
  sum_of f [] = 0
  sum_of f (x ∷ xs) = f x + sum_of f xs

  pub sum_of-add :
      (f g h : A → ℕ) (xs : List A)
      → All (λ x. f x ≡ g x + h x) xs
      → sum_of f xs ≡ sum_of g xs + sum_of h xs
  sum_of-add f g h [] e = omega arith
  sum_of-add f g h (x ∷ xs) e = omega (arith, e.0, sum_of-add f g h xs e.1)

  pub sum_of-take-le : (f : A → ℕ) (n : ℕ) (xs : List A) → sum_of f (take n xs) ≤ sum_of f xs
  sum_of-take-le f zero xs = omega arith
  sum_of-take-le f (suc n) [] = omega arith
  sum_of-take-le f (suc n) (x ∷ xs) = omega (arith, sum_of-take-le f n xs)

  -- A test that splits into two.
  pub count-split :
      (p q r : A → Bool) (xs : List A)
      → ((x : A) → (if p x then 1 else 0) + (if q x then 1 else 0) ≡ (if r x then 1 else 0))
      → count p xs + count q xs ≡ count r xs
  count-split p q r [] e = refl
  count-split p q r (x ∷ xs) e = omega (arith, e x, count-split p q r xs e)

  pub count-take-drop :
      (p : A → Bool) (n : ℕ) (xs : List A) → count p (take n xs) + count p (drop n xs) ≡ count p xs
  count-take-drop p zero xs = omega arith
  count-take-drop p (suc n) [] = refl
  count-take-drop p (suc n) (x ∷ xs) = omega (arith, count-take-drop p n xs)

  pub All-take {κ} : (P : A → Type κ) (n : ℕ) (xs : List A) → All P xs → All P (take n xs)
  All-take P zero xs h = tt
  All-take P (suc n) [] h = tt
  All-take P (suc n) (x ∷ xs) h = (h.0, All-take P n xs h.1)

  pub All-drop {κ} : (P : A → Type κ) (n : ℕ) (xs : List A) → All P xs → All P (drop n xs)
  All-drop P zero xs h = h
  All-drop P (suc n) [] h = tt
  All-drop P (suc n) (x ∷ xs) h = All-drop P n xs h.1

  pub All-true {κ} : (P : A → Type κ) (xs : List A) → ((x : A) → P x) → All P xs
  All-true P [] h = tt
  All-true P (x ∷ xs) h = (h x, All-true P xs h)

  pub count-none : (p : A → Bool) (xs : List A) → ((x : A) → p x ≡ false) → count p xs ≡ 0
  count-none p [] e = refl
  count-none p (x ∷ xs) e = ground (arith, e x, count-none p xs e)

  pub count_cong : (p q : A → Bool) (xs : List A) → ((x : A) → p x ≡ q x) → count p xs ≡ count q xs
  count_cong p q [] e = refl
  count_cong p q (x ∷ xs) e = ground (arith, e x, count_cong p q xs e)
