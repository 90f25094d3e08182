-- ===== src/Models/Constraints.antt =====
-- When an update keeps the constraints of the tables.
use production_library_manag.Prelude.{
  ℕ, ◌≡◌, refl, none, some, Bool, true, List, [], ◌∷◌, ◌==◌, all, any, arith,
}
use production_library_manag.Prelude.Rows.{
  Keyed, find, put, insert, distinct, distinct_keys, key-find, insert-distinct_keys,
}
use production_library_manag.Models.{
  Book, BorrowRecord, Reservation, RefreshToken, Db, book_key, borrow_key, reservation_key,
  token_key, book_ok, borrow_ok, satisfies_constraints, same_text,
}

any_cong : {A : Type 0} (p q : A → Bool) (xs : List A) → ((x : A) → p x ≡ q x) → any p xs ≡ any q xs
any_cong p q [] e = refl
any_cong p q (x ∷ xs) e = ground (arith, e x, any_cong p q xs e)

module _ {A : Type 0} ⦃k : Keyed A⦄ where
  pub all-put :
      (p : A → Bool) (r : A) (xs : List A) → all p xs ≡ true → p r ≡ true → all p (put r xs) ≡ true
  all-put p r [] h e = refl
  all-put p r (x ∷ xs) h e = ground (arith, all-put p r xs)

  pub all-find :
      (p : A → Bool) (i : ℕ) (r : A) (xs : List A)
      → all p xs ≡ true
      → find i xs ≡ some r
      → p r ≡ true
  all-find p i r [] h e = cc
  all-find p i r (x ∷ xs) h e = ground (arith, all-find p i r xs)

  module _ (old r : A) where
    any-put :
        (p : A → Bool) (xs : List A)
        → find (k.key r) xs ≡ some old
        → p r ≡ p old
        → any p (put r xs) ≡ any p xs
    any-put p [] h e = refl
    any-put p (x ∷ xs) h e = ground (arith, any-put p xs)

    -- A row that is compared like the one it replaces leaves a unique index as it was.
    distinct-put :
        (same : A → A → Bool)
        → ((x : A) → same x r ≡ same x old)
        → ((x : A) → same r x ≡ same old x)
        → (xs : List A) → find (k.key r) xs ≡ some old
        → distinct same (put r xs) ≡ distinct same xs
    distinct-put same f g [] h = refl
    distinct-put same f g (x ∷ xs) h = ground (
      arith,
      any-put (same x) xs,
      f x,
      any_cong (same r) (same old) xs g,
      distinct-put same f g xs,
    )

module _ (d : Db) where
  pub satisfied-books : satisfies_constraints d ≡ true → all book_ok d.books ≡ true
  unfolding satisfies_constraints
  satisfied-books h = ground arith

  pub satisfied-borrows : satisfies_constraints d ≡ true → all borrow_ok d.borrows ≡ true
  unfolding satisfies_constraints
  satisfied-borrows h = ground arith

  pub satisfied-distinct : satisfies_constraints d ≡ true → distinct_keys d.reservations ≡ true
  unfolding satisfies_constraints
  satisfied-distinct h = ground arith

  -- A reservation may be rewritten in any way.
  pub save_reservation-satisfied :
      (old r : Reservation)
      → find r.id d.reservations ≡ some old
      → satisfies_constraints d ≡ true
      → satisfies_constraints (record d { reservations = put r d.reservations }) ≡ true
  unfolding satisfies_constraints
  save_reservation-satisfied old r e h =
      let same = key-find r.id d.reservations old e in
      rw
        (distinct-put old r (λ a b. b.id == a.id) (λ x. ground (arith, same))
          (λ x. ground (arith, same)) d.reservations e)
        h

  pub save_borrow-satisfied :
      (old r : BorrowRecord)
      → find r.id d.borrows ≡ some old
      → borrow_ok r ≡ true
      → satisfies_constraints d ≡ true
      → satisfies_constraints (record d { borrows = put r d.borrows }) ≡ true
  unfolding satisfies_constraints
  save_borrow-satisfied old r e fine h =
      let same = key-find r.id d.borrows old e in
      ground (
        arith,
        all-put borrow_ok r d.borrows,
        distinct-put old r (λ a b. b.id == a.id) (λ x. ground (arith, same))
            (λ x. ground (arith, same)) d.borrows e,
      )

  pub save_book-satisfied :
      (old r : Book)
      → find r.id d.books ≡ some old
      → r.isbn ≡ old.isbn
      → book_ok r ≡ true
      → satisfies_constraints d ≡ true
      → satisfies_constraints (record d { books = put r d.books }) ≡ true
  unfolding satisfies_constraints
  save_book-satisfied old r e number fine h =
      let same = key-find r.id d.books old e in
      ground (
        arith,
        all-put book_ok r d.books,
        distinct-put old r (λ a b. b.id == a.id) (λ x. ground (arith, same))
            (λ x. ground (arith, same)) d.books e,
        distinct-put old r (λ a b. same_text a.isbn b.isbn) (λ x. rw number) (λ x. rw number)
            d.books e,
      )

  pub satisfied-tokens : satisfies_constraints d ≡ true → distinct_keys d.tokens ≡ true
  unfolding satisfies_constraints
  satisfied-tokens h = ground arith

  -- A refresh token may be rewritten in any way, and one with an id of its own may be added.
  pub save_token-satisfied :
      (old r : RefreshToken)
      → find r.id d.tokens ≡ some old
      → satisfies_constraints d ≡ true
      → satisfies_constraints (record d { tokens = put r d.tokens }) ≡ true
  unfolding satisfies_constraints
  save_token-satisfied old r e h =
      let same = key-find r.id d.tokens old e in
      rw
        (distinct-put old r (λ a b. b.id == a.id) (λ x. ground (arith, same))
          (λ x. ground (arith, same)) d.tokens e)
        h

  pub added_token-satisfied :
      (r : RefreshToken)
      → find r.id d.tokens ≡ none
      → satisfies_constraints d ≡ true
      → satisfies_constraints (record d { tokens = insert r d.tokens }) ≡ true
  unfolding satisfies_constraints
  added_token-satisfied r e h = ground (arith, insert-distinct_keys r d.tokens e)
