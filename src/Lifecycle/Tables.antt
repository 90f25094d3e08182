-- ===== src/Lifecycle/Tables.antt =====
-- Rows of a table that are followed over time: steps of a row, and tables that only step.
use production_library_manag.Prelude.{ℕ, ◌≡◌, some, List, arith, ◌==◌, Bool-cases, inl, inr}
use production_library_manag.Prelude.Rows.{Keyed, find, put, insert, find-put, find-insert_old}

pub data Steps {A : Type 0} (R : A → A → Type 0) : A → A → Type 0 where
  here : {r : A} → Steps R r r
  later : {r s t : A} → Steps R r s → R s t → Steps R r t

module _ {A : Type 0} ⦃k : Keyed A⦄ where
  -- Every row of the first table is in the second, some steps further.
  pub record IsFollowed (R : A → A → Type 0) (old rows : List A) : Type 0 where
    pub follow :
        (i : ℕ) (r : A) → find i old ≡ some r → (r' : A) × (find i rows ≡ some r') × Steps R r r'

  pub IsFollowed-refl : (R : A → A → Type 0) (rows : List A) → IsFollowed R rows rows
  IsFollowed-refl R rows = record { follow = λ i r e. (r, e, here) }

  module _ (R : A → A → Type 0) (old rows : List A) (h : IsFollowed R old rows) where
    pub insert-IsFollowed : (x : A) → IsFollowed R old (insert x rows)
    insert-IsFollowed x = record {
      follow = λ i r e.
          let (r', there, path) = h.follow i r e in (r', find-insert_old x r' rows i there, path);
    }

    put_follow :
        (x x' : A)
        → find (k.key x') rows ≡ some x
        → R x x'
        → (i : ℕ) (r r' : A) → find i rows ≡ some r'
        → Steps R r r'
        → (r'' : A) × (find i (put x' rows) ≡ some r'') × Steps R r r''
    put_follow x x' there step i r r' e path = elim (Bool-cases (k.key x' == i)) [
      | inl hit ↦
          let same : x ≡ r' = ground (arith, there, e, hit) in
          (x', ground (arith, hit, find-put x' x rows i there), later path (rw (← same) step))
      | inr miss ↦ (r', ground (arith, miss, e, find-put x' x rows i there), path)
    ]

    pub put-IsFollowed :
        (x x' : A) → find (k.key x') rows ≡ some x → R x x' → IsFollowed R old (put x' rows)
    put-IsFollowed x x' there step = record {
      follow = λ i r e.
          let (r', found, path) = h.follow i r e in put_follow x x' there step i r r' found path;
    }
