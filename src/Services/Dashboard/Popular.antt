-- ===== src/Services/Dashboard/Popular.antt =====
-- The five books that were borrowed most.
use production_library_manag.Prelude.{
  ℕ, zero, suc, ◌+◌, ◌-◌, ◌*◌, ◌≡◌, ◌≤◌, refl, Bool, List, [], ◌∷◌, arith, take, drop, length,
  count, All, All-mono, All-and, All-drop, All-take, All-true, length-take-le, count-take-drop,
  Bool-cases, inl, inr,
}
use production_library_manag.Enums.{day}
use production_library_manag.Models.{Db}
use production_library_manag.Repositories.Dashboard.{
  Sql, PopularBook, popular_groups, ranks_before, insert_ranked, ranked, get_popular_books,
}

-- No row was borrowed more than one before it.
abbrev pub IsDescending : List PopularBook → Type 0
IsDescending [] = Unit
IsDescending (a ∷ rest) = All (λ b. b.checkout_count ≤ a.checkout_count) rest × IsDescending rest

module _ (sql : Sql) where
  insert_ranked-All :
      (P : PopularBook → Type 0) (a : PopularBook) (l : List PopularBook)
      → P a
      → All P l
      → All P (insert_ranked sql a l)
  insert_ranked-All P a [] p h = (p, tt)
  insert_ranked-All P a (b ∷ l) p h = elim (Bool-cases (ranks_before sql a b)) [
    | inl before ↦ rw before (p, (h.0, h.1))
    | inr after ↦ rw after (h.0, insert_ranked-All P a l p h.1)
  ]

  insert_ranked-IsDescending :
      (a : PopularBook) (l : List PopularBook)
      → IsDescending l
      → IsDescending (insert_ranked sql a l)
  insert_ranked-IsDescending a [] h = (tt, tt)
  insert_ranked-IsDescending a (b ∷ l) h = elim (Bool-cases (ranks_before sql a b)) [
    | inl before ↦
        let most : b.checkout_count ≤ a.checkout_count = ground arith in
        rw before ((most, All-mono l (λ x e. omega arith) h.0), h)
    | inr after ↦
        let less : a.checkout_count ≤ b.checkout_count = ground arith in
        rw after (insert_ranked-All _ a l less h.0, insert_ranked-IsDescending a l h.1)
  ]

  insert_ranked-count :
      (p : PopularBook → Bool) (a : PopularBook) (l : List PopularBook)
      → count p (insert_ranked sql a l) ≡ count p (a ∷ l)
  insert_ranked-count p a [] = refl
  insert_ranked-count p a (b ∷ l) = elim (Bool-cases (ranks_before sql a b)) [
    | inl before ↦ rw before refl
    | inr after ↦ rw after (omega (arith, insert_ranked-count p a l))
  ]

  ranked-IsDescending : (l : List PopularBook) → IsDescending (ranked sql l)
  unfolding ranked
  ranked-IsDescending [] = tt
  ranked-IsDescending (a ∷ l) = insert_ranked-IsDescending a (ranked sql l) (ranked-IsDescending l)

  ranked-count :
      (p : PopularBook → Bool) (l : List PopularBook) → count p (ranked sql l) ≡ count p l
  unfolding ranked
  ranked-count p [] = refl
  ranked-count p (a ∷ l) = omega (arith, insert_ranked-count p a (ranked sql l), ranked-count p l)

take-IsDescending : (n : ℕ) (l : List PopularBook) → IsDescending l → IsDescending (take n l)
take-IsDescending zero l h = tt
take-IsDescending (suc n) [] h = tt
take-IsDescending (suc n) (a ∷ l) h = (All-take _ n l h.0, take-IsDescending n l h.1)

-- What is cut off was not borrowed more than anything that is kept.
cut-le :
    (n : ℕ) (l : List PopularBook)
    → IsDescending l
    → All (λ b. All (λ a. b.checkout_count ≤ a.checkout_count) (take n l)) (drop n l)
cut-le zero l h = All-true _ l (λ b. tt)
cut-le (suc n) [] h = tt
cut-le (suc n) (a ∷ l) h = All-and _ _ (drop n l) (All-drop _ n l h.0) (cut-le n l h.1)

-- The answer lists five books at most, those borrowed more first; with some rest it makes up the
-- groups of all live books that were borrowed in the window, each as often, and no book of the
-- rest was borrowed more than a listed one.
pub get_popular_books-top :
    (sql : Sql) (now days : ℕ) (d : Db)
    → (length (get_popular_books sql now days d) ≤ 5)
      × IsDescending (get_popular_books sql now days d)
      × ((rest : List PopularBook) × ((p : PopularBook → Bool)
            → count p (get_popular_books sql now days d) + count p rest
              ≡ count p (popular_groups (now - days * day) d))
          × All
              (λ b.
                All (λ a. b.checkout_count ≤ a.checkout_count) (get_popular_books sql now days d))
              rest)
unfolding get_popular_books
get_popular_books-top sql now days d =
    let groups : List PopularBook = popular_groups (now - days * day) d in
    let sorted : List PopularBook = ranked sql groups in
    (
      length-take-le 5 sorted,
      take-IsDescending 5 sorted (ranked-IsDescending sql groups),
      (
        drop 5 sorted,
        (λ p. omega (arith, count-take-drop p 5 sorted, ranked-count sql p groups)),
        cut-le 5 sorted (ranked-IsDescending sql groups),
      ),
    )
