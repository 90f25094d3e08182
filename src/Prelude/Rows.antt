-- ===== src/Prelude/Rows.antt =====
-- Tables as lists of rows in insertion order, each row with a primary key.
use Prim.Native.Nat.{ℕ, ◌+◌}
use mathlib.Core.Path.{◌≡◌, refl, subst}
use mathlib.Core.Bool.{Bool, true, false, not, ◌&&◌, ◌||◌}
use mathlib.Core.Option.{Option, none, some}
use mathlib.Core.List.{List, [], ◌∷◌, ◌++◌}
use mathlib.Core.Logic.{◌≢◌, inl, inr}
use native.Mathlib.Omega.{arith}
use production_library_manag.Prelude.Tests.{◌==◌, Bool-cases, if◌then◌else◌}
use production_library_manag.Prelude.Lists.{count, any, select, All, All-mono}

-- A row type with its primary key.
pub record Keyed (A : Type 0) : Type 0 where
  pub key : A → ℕ

-- `INSERT`
abbrev pub insert : {A : Type 0} → A → List A → List A
insert r xs = xs ++ r ∷ []

-- No two rows are the same by a test: a unique index.
abbrev pub distinct : {A : Type 0} → (A → A → Bool) → List A → Bool
distinct same [] = true
distinct same (x ∷ xs) = not (any (same x) xs) && distinct same xs

module _ {A : Type 0} ⦃k : Keyed A⦄ where
  abbrev pub distinct_keys : List A → Bool
  distinct_keys = distinct (λ a b. k.key b == k.key a)

  -- `SELECT … WHERE id = :i`
  abbrev pub find : ℕ → List A → Option A
  find i [] = none
  find i (x ∷ xs) = if k.key x == i then some x else find i xs

  -- `UPDATE … WHERE id = :id` with the attributes of a loaded object
  abbrev pub put : A → List A → List A
  put r [] = []
  put r (x ∷ xs) = if k.key x == k.key r then r ∷ xs else x ∷ put r xs

  pub key-find : (i : ℕ) (xs : List A) (r : A) → find i xs ≡ some r → k.key r ≡ i
  key-find i [] r h = ground arith
  key-find i (x ∷ xs) r h = ground (arith, key-find i xs r)

  pub find-put :
      (r old : A) (xs : List A) (j : ℕ)
      → find (k.key r) xs ≡ some old
      → find j (put r xs) ≡ (if k.key r == j then some r else find j xs)
  find-put r old [] j h = ground arith
  find-put r old (x ∷ xs) j h = ground (arith, find-put r old xs j)

  pub find-insert_old :
      (r x : A) (xs : List A) (j : ℕ) → find j xs ≡ some x → find j (insert r xs) ≡ some x
  find-insert_old r x [] j h = ground arith
  find-insert_old r x (y ∷ xs) j h = ground (arith, find-insert_old r x xs j)

  pub find-insert_new :
      (r : A) (xs : List A) (j : ℕ)
      → find j xs ≡ none
      → find j (insert r xs) ≡ (if k.key r == j then some r else none)
  find-insert_new r [] j h = refl
  find-insert_new r (x ∷ xs) j h = ground (arith, find-insert_new r xs j)

  -- A changed row moves a count by what it counted before and counts now.
  pub count-put :
      (p : A → Bool) (r old : A) (xs : List A)
      → find (k.key r) xs ≡ some old
      → count p (put r xs) + (if p old then 1 else 0) ≡ count p xs + (if p r then 1 else 0)
  count-put p r old [] h = ground arith
  count-put p r old (x ∷ xs) h = ground (arith, count-put p r old xs)

  pub count-insert :
      (p : A → Bool) (r : A) (xs : List A)
      → count p (insert r xs) ≡ count p xs + (if p r then 1 else 0)
  count-insert p r [] = omega arith
  count-insert p r (x ∷ xs) = omega (arith, count-insert p r xs)

  -- No primary key stands twice.
  abbrev pub IsKeyed : List A → Type 0
  IsKeyed [] = Unit
  IsKeyed (x ∷ xs) = (find (k.key x) xs ≡ none) × IsKeyed xs

  find-none :
      (x : A) (xs : List A) → any (λ b. k.key b == k.key x) xs ≡ false → find (k.key x) xs ≡ none
  find-none x [] h = refl
  find-none x (y ∷ xs) h = ground (arith, find-none x xs)

  pub distinct_keys-IsKeyed : (xs : List A) → distinct_keys xs ≡ true → IsKeyed xs
  distinct_keys-IsKeyed [] h = tt
  distinct_keys-IsKeyed (x ∷ xs) h =
      (find-none x xs (ground arith), distinct_keys-IsKeyed xs (ground arith))

  pub find-put-none : (r : A) (xs : List A) (j : ℕ) → find j xs ≡ none → find j (put r xs) ≡ none
  find-put-none r [] j h = refl
  find-put-none r (x ∷ xs) j h = ground (arith, find-put-none r xs j)

  pub put-IsKeyed : (r : A) (xs : List A) → IsKeyed xs → IsKeyed (put r xs)
  put-IsKeyed r [] h = tt
  put-IsKeyed r (x ∷ xs) h = ground (arith, put-IsKeyed r xs h.1, find-put-none r xs (k.key x))

  -- Each selected row is the one that its key finds.
  pub select-find :
      (p : A → Bool) (xs : List A)
      → IsKeyed xs
      → All (λ x. (find (k.key x) xs ≡ some x) × (p x ≡ true)) (select p xs)
  select-find p [] h = tt
  select-find p (x ∷ xs) h = elim (Bool-cases (p x)) [
    | inl hit ↦ rw hit (ground arith, All-mono _ later (select-find p xs h.1))
    | inr miss ↦ rw miss (All-mono _ later (select-find p xs h.1))
  ]
    where
      later :
          (y : A)
          → (find (k.key y) xs ≡ some y) × (p y ≡ true)
          → (find (k.key y) (x ∷ xs) ≡ some y) × (p y ≡ true)
      later y e = ground (arith, h.0)

  find-select-none :
      (p : A → Bool) (xs : List A) (j : ℕ) → find j xs ≡ none → find j (select p xs) ≡ none
  find-select-none p [] j h = refl
  find-select-none p (x ∷ xs) j h = ground (arith, find-select-none p xs j)

  pub select-IsKeyed : (p : A → Bool) (xs : List A) → IsKeyed xs → IsKeyed (select p xs)
  select-IsKeyed p [] h = tt
  select-IsKeyed p (x ∷ xs) h = elim (Bool-cases (p x)) [
    | inl hit ↦ rw hit (find-select-none p xs (k.key x) h.0, select-IsKeyed p xs h.1)
    | inr miss ↦ rw miss (select-IsKeyed p xs h.1)
  ]

  -- A key that is not found is the key of no row.
  pub absent-All : (i : ℕ) (xs : List A) → find i xs ≡ none → All (λ x. k.key x ≢ i) xs
  absent-All i [] h = tt
  absent-All i (x ∷ xs) h = (ground arith, absent-All i xs (ground arith))

  pub put-All {κ} : (P : A → Type κ) (r : A) (xs : List A) → All P xs → P r → All P (put r xs)
  put-All P r [] a p = tt
  put-All P r (x ∷ xs) a p = elim (Bool-cases (k.key x == k.key r)) [
    | inl hit ↦ rw hit (p, a.1)
    | inr miss ↦ rw miss (a.0, put-All P r xs a.1 p)
  ]

  pub find-All {κ} :
      (P : A → Type κ) (i : ℕ) (xs : List A) (r : A) → All P xs → find i xs ≡ some r → P r
  find-All P i [] r a e = cc
  find-All P i (x ∷ xs) r a e = elim (Bool-cases (k.key x == i)) [
    | inl hit ↦ let same : x ≡ r = ground arith in subst P same a.0
    | inr miss ↦ find-All P i xs r a.1 (rw miss at e)
  ]

  -- A changed row is selected in the place of the one it replaces.
  pub select-put :
      (p : A → Bool) (r old : A) (xs : List A)
      → find (k.key r) xs ≡ some old
      → p old ≡ true
      → p r ≡ true
      → select p (put r xs) ≡ put r (select p xs)
  select-put p r old [] e h g = refl
  select-put p r old (x ∷ xs) e h g = ground (arith, select-put p r old xs)

  -- A row that is not selected, in the place of one that is not selected.
  pub select-put_other :
      (p : A → Bool) (r old : A) (xs : List A)
      → find (k.key r) xs ≡ some old
      → p old ≡ false
      → p r ≡ false
      → select p (put r xs) ≡ select p xs
  select-put_other p r old [] e h g = refl
  select-put_other p r old (x ∷ xs) e h g = ground (arith, select-put_other p r old xs)

  pub unselected-find :
      (p : A → Bool) (i : ℕ) (r : A) (xs : List A)
      → select p xs ≡ []
      → find i xs ≡ some r
      → p r ≡ false
  unselected-find p i r [] e h = cc
  unselected-find p i r (x ∷ xs) e h = ground (arith, unselected-find p i r xs)

  any-insert_key :
      (i : ℕ) (r : A) (xs : List A)
      → any (λ b. k.key b == i) (insert r xs) ≡ (any (λ b. k.key b == i) xs || k.key r == i)
  any-insert_key i r [] = ground arith
  any-insert_key i r (x ∷ xs) = ground (arith, any-insert_key i r xs)

  pub insert-distinct_keys :
      (r : A) (xs : List A)
      → find (k.key r) xs ≡ none
      → distinct_keys xs ≡ true
      → distinct_keys (insert r xs) ≡ true
  insert-distinct_keys r [] e h = refl
  insert-distinct_keys r (x ∷ xs) e h =
      ground (arith, any-insert_key (k.key x) r xs, insert-distinct_keys r xs)

module _ {A : Type 0} where
  pub select-insert :
      (p : A → Bool) (r : A) (xs : List A)
      → select p xs ≡ []
      → p r ≡ true
      → select p (insert r xs) ≡ r ∷ []
  select-insert p r [] e h = ground (arith, h)
  select-insert p r (x ∷ xs) e h = ground (arith, e, select-insert p r xs)

  pub select-insert_other :
      (p : A → Bool) (r : A) (xs : List A) → p r ≡ false → select p (insert r xs) ≡ select p xs
  select-insert_other p r [] h = ground (arith, h)
  select-insert_other p r (x ∷ xs) h = ground (arith, select-insert_other p r xs)

  pub insert-All {κ} : (P : A → Type κ) (r : A) (xs : List A) → All P xs → P r → All P (insert r xs)
  insert-All P r [] a p = (p, tt)
  insert-All P r (x ∷ xs) a p = (a.0, insert-All P r xs a.1 p)
