-- ===== src/Repositories/Base.antt =====
-- app/repositories/base.py, on the rows of one table.
use production_library_manag.Prelude.{
  ℕ, ◌≡◌, none, some, Bool, true, false, not, List, [], ◌∷◌, ◌==◌, take, drop, select, arith,
  if◌then◌else◌,
}
use production_library_manag.Prelude.Rows.{Keyed, find}

-- `offset(skip).limit(limit)`
abbrev pub page_of : {A : Type 0} → ℕ → ℕ → List A → List A
page_of skip limit rows = take limit (drop skip rows)

module _ {A : Type 0} ⦃k : Keyed A⦄ where
  -- `session.delete(record)`
  abbrev remove : ℕ → List A → List A
  remove i rows = select (λ x. not (k.key x == i)) rows

  -- The physical delete, which the repositories of books and members replace by a soft one; the
  -- answer is whether there was such a row.
  unfoldable pub delete : ℕ → List A → Bool × List A
  delete i rows = elim (find i rows) [ none ↦ (false, rows) | some r ↦ (true, remove i rows) ]

  find-remove :
      (i j : ℕ) (rows : List A) → find j (remove i rows) ≡ (if i == j then none else find j rows)
  find-remove i j [] = ground arith
  find-remove i j (x ∷ rows) = ground (arith, find-remove i j rows)

  -- The row is gone, and the others are as they were.
  pub find-delete :
      (i j : ℕ) (rows : List A) → find j (delete i rows).1 ≡ (if i == j then none else find j rows)
  unfolding delete
  find-delete i j rows = ground (arith, find-remove i j rows)
