-- ===== src/Services/Books/Stock.antt =====
-- When the number of copies of a book may change.
use production_library_manag.Prelude.{
  ℕ, ◌+◌, ◌-◌, ◌≡◌, ◌≤◌, ◌<◌, refl, ap, some, true, false, not, List, [], ◌∷◌, ◌++◌, arith, select,
}
use production_library_manag.Prelude.Int.{pos, pos_part, ◌+ℤ◌, ◌-ℤ◌, ltb_ℤ}
use production_library_manag.Errors.{Error}
use production_library_manag.Models.{Book, satisfies_constraints}
use production_library_manag.Session.{
  Env, Lock, book_row, Session, ok, err, M, and_then, begin, close, flush, pure, transactional,
  ◌>>◌,
}
use production_library_manag.Repositories.Books
use production_library_manag.Repositories.Books.{Attribute}
use production_library_manag.Repositories.Selection.{get_by_id-eq-some}
use production_library_manag.Services.Books.{
  total_copies_of, is_total_copies, new_available, with_copies, adjust_copies, update_book_body,
  update_book,
}

module _ (n : ℕ) (b : Book) where
  below : n + b.available_copies < b.total_copies → ltb_ℤ (new_available (pos n) b) (pos 0) ≡ true
  unfolding ◌+ℤ◌ ◌-ℤ◌
  below h = ground arith

  enough : b.total_copies ≤ n + b.available_copies → ltb_ℤ (new_available (pos n) b) (pos 0) ≡ false
  unfolding ◌+ℤ◌ ◌-ℤ◌
  enough h = ground arith

  nonnegative : ltb_ℤ (pos n) (pos 0) ≡ false
  nonnegative = ground arith

  -- The copies that are not on the shelf stay where they are.
  abbrev pub restocked : Book
  restocked = record b {
    total_copies = n;
    available_copies = n + b.available_copies - b.total_copies;
  }

  shelved :
      b.total_copies ≤ n + b.available_copies
      → pos_part (new_available (pos n) b) ≡ n + b.available_copies - b.total_copies
  unfolding ◌+ℤ◌ ◌-ℤ◌
  shelved h = ground arith

  with_copies-restocked :
      b.total_copies ≤ n + b.available_copies → with_copies (pos n) b ≡ restocked
  with_copies-restocked h =
      ap (λ k. record b { total_copies = n; available_copies = k }) (shelved h)

abbrev pub kept_attributes : List Attribute → List Attribute
kept_attributes l = select (λ a. not (is_total_copies a)) l

module _ (n : ℕ) (b : Book) (s : Session) where
  too_few :
      n + b.available_copies < b.total_copies
      → adjust_copies (some (some (pos n))) b s ≡ (err Error.value_error, s)
  unfolding adjust_copies
  too_few h = simp (nonnegative n b, below n b h)

  adjusted :
      b.total_copies ≤ n + b.available_copies
      → adjust_copies (some (some (pos n))) b s ≡ (ok (restocked n b), s)
  unfolding adjust_copies
  adjusted h = simp (nonnegative n b, enough n b h, with_copies-restocked n b h)

module _ (env : Env) (i n : ℕ) (l : List Attribute) where
  abbrev locked : Session → Session
  locked s = record s { locks = s.locks ++ book_row i ∷ [] }

  -- What follows the adjustment.
  abbrev written : Book → M Book
  written b =
      Books.update b (kept_attributes l)
      >> (flush >> pure (Books.set_attributes b (kept_attributes l)))

  loaded :
      (s : Session) (b : Book)
      → ((k : Lock) → env.conflict k ≡ false)
      → Books.get_by_id i s.db ≡ some b
      → update_book_body env i l s
        ≡ and_then (adjust_copies (total_copies_of l) b (locked s)) written
  unfolding update_book_body Books.get_by_id_for_update
  loaded s b free found =
      let (there, live) = get_by_id-eq-some i s.db found in simp (free, found, live)

  opened :
      (s : Session)
      → s.depth ≡ 0
      → update_book env i l s ≡ close (update_book_body env i l (begin s))
  unfolding update_book transactional
  opened s outside = simp outside

  -- Without a lock conflict, a request that sets the total of a book below the number of copies
  -- that are not on the shelf is refused and changes nothing.
  pub update_book-below :
      (s : Session) (b : Book)
      → ((k : Lock) → env.conflict k ≡ false)
      → s.depth ≡ 0
      → Books.get_by_id i s.db ≡ some b
      → total_copies_of l ≡ some (some (pos n))
      → n + b.available_copies < b.total_copies
      → ((update_book env i l s).0 ≡ err Error.value_error) × ((update_book env i l s).1.db ≡ s.db)
  update_book-below s b free outside found asked low =
      simp
        (opened s outside, loaded (begin s) b free found, asked, too_few n b (locked (begin s)) low)
        (refl, refl)

  -- The book as it is written, and the rows.
  abbrev pub rewritten : Book → Book
  rewritten b = Books.set_attributes (restocked n b) (kept_attributes l)

  -- Without a lock conflict, a request that sets the total of a book to at least the number of
  -- copies that are not on the shelf goes through, if the database accepts the rows: the shelf
  -- moves by as much as the total, and the other attributes of the request are set.
  pub update_book-restocks :
      (s : Session) (b : Book)
      → ((k : Lock) → env.conflict k ≡ false)
      → s.depth ≡ 0
      → Books.get_by_id i s.db ≡ some b
      → total_copies_of l ≡ some (some (pos n))
      → b.total_copies ≤ n + b.available_copies
      → satisfies_constraints (Books.save (rewritten b) s.db) ≡ true
      → ((update_book env i l s).0 ≡ ok (rewritten b))
        × ((update_book env i l s).1.committed ≡ Books.save (rewritten b) s.db)
  unfolding Books.update
  update_book-restocks s b free outside found asked high accepted =
      simp
        (
          opened s outside,
          loaded (begin s) b free found,
          asked,
          adjusted n b (locked (begin s)) high,
          accepted,
        )
        (refl, refl)
