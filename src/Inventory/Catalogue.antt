-- ===== src/Inventory/Catalogue.antt =====
-- `create_book`, `update_book` and `delete_book` keep the accounts.
use production_library_manag.Prelude.{
  ℕ, ◌+◌, ◌≡◌, refl, sym, subst, Option, none, some, true, false, List, [], ◌∷◌, String, arith, not,
  select,
}
use production_library_manag.Prelude.Int.{ℤ, pos, ◌-ℤ◌, +ℤ_parts, -ℤ_parts, ltb_ℤ}
use production_library_manag.Prelude.Rows.{find, key-find}
use production_library_manag.Errors.{Error}
use production_library_manag.Models.{Book, Db, book_key}
use production_library_manag.Session.{Env}
use production_library_manag.Session.Logic.{
  Ensures, Reads, reads-Ensures, raise_if-Reads, raise_if-Ensures, query_one-Reads, flush-Reads,
  pure-Reads, query-Ensures, modify-Ensures, found-Ensures, >>=-Ensures, >>-Reads,
  transactional-Ensures,
}
use production_library_manag.Repositories.Books
use production_library_manag.Repositories.Books.{
  Attribute, title, author, isbn, genre, total_copies,
}
use production_library_manag.Repositories.Selection.{get_by_id-eq-some, get_book-Ensures}
use production_library_manag.Services.Books.{
  new_book, is_some, create_book_body, create_book, total_copies_of, is_total_copies, adjust_copies,
  new_available, with_copies, update_book_body, update_book, delete_book_body, delete_book,
}
use production_library_manag.Inventory.Defs.{IsBalanced}
use production_library_manag.Inventory.Rows.{new_book-IsBalanced, save_book-IsBalanced}

module _ (env : Env) (by_title by_author : Option String) (number : String) (total : ℕ)
    (by_genre : Option String) where
  abbrev added : Book
  added = new_book env by_title by_author number total by_genre

  create-IsBalanced : Ensures (IsBalanced none) (Books.create added) (λ _. IsBalanced none)
  unfolding Books.create
  create-IsBalanced = modify-Ensures _ _ (λ d h. new_book-IsBalanced d added h refl)

  get_by_isbn-Reads : Reads (Books.get_by_isbn number)
  unfolding Books.get_by_isbn
  get_by_isbn-Reads = query_one-Reads _

  create_book_body-IsBalanced :
      Ensures
        (IsBalanced none)
        (create_book_body env by_title by_author number total by_genre)
        (λ _. IsBalanced none)
  unfolding create_book_body
  create_book_body-IsBalanced = >>=-Ensures _ _ (reads-Ensures _ _ get_by_isbn-Reads) λ existing.
      >>=-Ensures _ _ (reads-Ensures _ _ (raise_if-Reads (is_some existing) Error.value_error)) λ _.
        >>=-Ensures _ _ create-IsBalanced
          λ _. reads-Ensures _ _ (>>-Reads _ _ flush-Reads (pure-Reads added))

  -- A new book keeps every copy accounted for.
  pub create_book-IsBalanced :
      Ensures
        (IsBalanced none)
        (create_book env by_title by_author number total by_genre)
        (λ _. IsBalanced none)
  unfolding create_book
  create_book-IsBalanced = transactional-Ensures _ create_book_body-IsBalanced

-- The total and the shelf have moved by the same number, and the book is the same otherwise.
pub record SameStock (old b : Book) : Type 0 where
  pub same_id : b.id ≡ old.id
  pub same_deleted : b.is_deleted ≡ old.is_deleted
  pub moved : b.available_copies + old.total_copies ≡ old.available_copies + b.total_copies

set_attributes-SameStock :
    (old b : Book) (l : List Attribute) → SameStock old b → SameStock old (Books.set_attributes b l)
unfolding Books.set_attributes
set_attributes-SameStock old b [] h = h
set_attributes-SameStock old b (title v ∷ l) h = set_attributes-SameStock old _ l (ground arith)
set_attributes-SameStock old b (author v ∷ l) h = set_attributes-SameStock old _ l (ground arith)
set_attributes-SameStock old b (isbn v ∷ l) h = set_attributes-SameStock old _ l (ground arith)
set_attributes-SameStock old b (genre v ∷ l) h = set_attributes-SameStock old _ l (ground arith)
set_attributes-SameStock old b (total_copies v ∷ l) h = set_attributes-SameStock old b l h

adjusted-SameStock :
    (old : Book) (n : ℤ)
    → ltb_ℤ n (pos 0) ≡ false
    → ltb_ℤ (new_available n old) (pos 0) ≡ false
    → SameStock old (with_copies n old)
adjusted-SameStock old n h k =
    let diff : ℤ = n -ℤ pos old.total_copies in
    ground (arith, -ℤ_parts n (pos old.total_copies), +ℤ_parts (pos old.available_copies) diff)

adjust_copies-SameStock :
    (P : Db → Type 0) (o : Option (Option ℤ)) (old : Book)
    → Ensures P (adjust_copies o old) (λ b d. P d × SameStock old b)
unfolding adjust_copies
adjust_copies-SameStock P none old = record {
  on_ok = λ s h. (h, record { same_id = refl; same_deleted = refl; moved = refl });
}
adjust_copies-SameStock P (some none) old = record { on_ok = λ s h. tt }
adjust_copies-SameStock P (some (some n)) old =
    >>=-Ensures _ _ (raise_if-Ensures P (ltb_ℤ n (pos 0)) Error.value_error) λ _.
      >>=-Ensures _ _ (raise_if-Ensures _ (ltb_ℤ (new_available n old) (pos 0)) Error.value_error)
        λ _. record { on_ok = λ s h. (h.0.0, adjusted-SameStock old n h.0.1 h.1) }

module _ (env : Env) (i : ℕ) where
  abbrev Loaded : Book → Db → Type 0
  Loaded b d = IsBalanced none d × (Books.get_by_id i d ≡ some b)

  stock-IsBalanced :
      (d : Db) (old b : Book) → Loaded old d → SameStock old b → IsBalanced none (Books.save b d)
  stock-IsBalanced d old b h same =
      let (there, live) = get_by_id-eq-some i d h.1 in
      let key : i ≡ b.id = ground (arith, key-find i d.books old there) in
      save_book-IsBalanced d none none old b h.0 (subst (λ k. find k d.books ≡ some old) key there)
        (λ _. (live, ground arith)) (λ j other. refl)

  save_updated-IsBalanced :
      (old b : Book) (l : List Attribute)
      → Ensures (λ d. Loaded old d × SameStock old b) (Books.update b l) (λ _. IsBalanced none)
  unfolding Books.update
  save_updated-IsBalanced old b l = modify-Ensures _ (Books.save (Books.set_attributes b l)) λ d h.
      stock-IsBalanced d old (Books.set_attributes b l) h.0 (set_attributes-SameStock old b l h.1)

  update_book_body-IsBalanced :
      (l : List Attribute)
      → Ensures (IsBalanced none) (update_book_body env i l) (λ _. IsBalanced none)
  unfolding update_book_body
  update_book_body-IsBalanced l =
      let rest = select (λ a. not (is_total_copies a)) l in
      >>=-Ensures _ _ (get_book-Ensures _ env i) λ found.
        >>=-Ensures _ _ (found-Ensures (Books.get_by_id i) found Error.book_not_found) λ old.
          >>=-Ensures _ _
            (reads-Ensures (Loaded old) _ (raise_if-Reads old.is_deleted Error.book_not_found))
            λ _. >>=-Ensures _ _ (adjust_copies-SameStock (Loaded old) (total_copies_of l) old) λ b.
              >>=-Ensures _ _ (save_updated-IsBalanced old b rest) λ _.
                reads-Ensures _ _
                  (>>-Reads _ _ flush-Reads (pure-Reads (Books.set_attributes b rest)))

  -- An update of a book, of its number of copies too, keeps every copy accounted for.
  pub update_book-IsBalanced :
      (l : List Attribute) → Ensures (IsBalanced none) (update_book env i l) (λ _. IsBalanced none)
  unfolding update_book
  update_book-IsBalanced l = transactional-Ensures _ (update_book_body-IsBalanced l)

  deleted-IsBalanced :
      (d : Db) (old : Book)
      → Loaded old d
      → IsBalanced none (Books.save (record old { is_deleted = true; deleted_at = some env.now }) d)
  deleted-IsBalanced d old h =
      let (there, live) = get_by_id-eq-some i d h.1 in
      let key : i ≡ old.id = ground (arith, key-find i d.books old there) in
      save_book-IsBalanced d none none old
        (record old { is_deleted = true; deleted_at = some env.now }) h.0
        (subst (λ k. find k d.books ≡ some old) key there) (λ absurd_. cc) (λ j other. refl)

  mark_deleted-IsBalanced :
      (o : Option Book)
      → Ensures
          (λ d. IsBalanced none d × (o ≡ Books.get_by_id i d))
          (Books.mark_deleted env o)
          (λ _. IsBalanced none)
  unfolding Books.mark_deleted
  mark_deleted-IsBalanced none = record { on_ok = λ s h. h.0 }
  mark_deleted-IsBalanced (some b) = record {
    on_ok = λ s h. deleted-IsBalanced s.db b (h.0, sym h.1);
  }

  delete_book_body-IsBalanced :
      Ensures (IsBalanced none) (delete_book_body env i) (λ _. IsBalanced none)
  unfolding delete_book_body Books.delete
  delete_book_body-IsBalanced =
      >>=-Ensures _ _
        (>>=-Ensures _ _ (query-Ensures _ (Books.get_by_id i)) mark_deleted-IsBalanced)
        λ success.
          reads-Ensures _ _
            (>>-Reads _ _ (raise_if-Reads (not success) Error.book_not_found) flush-Reads)

  -- A deletion keeps every copy accounted for: those of a deleted book are no longer counted.
  pub delete_book-IsBalanced : Ensures (IsBalanced none) (delete_book env i) (λ _. IsBalanced none)
  unfolding delete_book
  delete_book-IsBalanced = transactional-Ensures _ delete_book_body-IsBalanced
