-- ===== src/Services/Books.antt =====
-- app/services/book_service.py. Log lines are not modelled.
pub mod Stock
use production_library_manag.Prelude.{
  ℕ, Option, none, some, Bool, true, false, not, List, [], ◌∷◌, String, select,
}
use production_library_manag.Prelude.Int.{ℤ, pos, pos_part, ◌+ℤ◌, ◌-ℤ◌, ltb_ℤ}
use production_library_manag.Enums.{BookCondition}
use production_library_manag.Errors.{Error}
use production_library_manag.Models.{Book}
use production_library_manag.Session.{
  M, Env, transactional, query, pure, raise, or_raise, raise_if, flush, ◌>>=◌, ◌>>◌,
}
use production_library_manag.Repositories.Books
use production_library_manag.Repositories.Books.{Attribute, total_copies}

unfoldable pub get_book_by_id : ℕ → M Book
get_book_by_id book_id = do
  found ← query (Books.get_by_id book_id)
  book ← or_raise found Error.book_not_found
  raise_if book.is_deleted Error.book_not_found
  pure book

abbrev pub is_some : {A : Type 0} → Option A → Bool
is_some none = false
is_some (some _) = true

abbrev pub new_book : Env → Option String → Option String → String → ℕ → Option String → Book
new_book env title author isbn total genre = record {
  id = env.uuid 0;
  isbn = some isbn;
  title = title;
  author = author;
  genre = genre;
  total_copies = total;
  available_copies = total;
  condition = BookCondition.good;
  is_deleted = false;
  deleted_at = none;
}

unfoldable pub create_book_body :
    Env → Option String → Option String → String → ℕ → Option String → M Book
create_book_body env title author isbn total genre = do
  existing ← Books.get_by_isbn isbn
  raise_if (is_some existing) Error.value_error
  let book = new_book env title author isbn total genre
  Books.create book
  flush
  pure book

unfoldable pub create_book :
    Env → Option String → Option String → String → ℕ → Option String → M Book
unfolding create_book_body
create_book env title author isbn total genre =
    transactional (create_book_body env title author isbn total genre)

-- `update_data["total_copies"]`, if the key is there; the value may be None.
abbrev pub total_copies_of : List Attribute → Option (Option ℤ)
total_copies_of [] = none
total_copies_of (total_copies v ∷ rest) = some v
total_copies_of (_ ∷ rest) = total_copies_of rest

abbrev pub is_total_copies : Attribute → Bool
is_total_copies (total_copies _) = true
is_total_copies _ = false

-- `book.available_copies + (new_total - book.total_copies)`
abbrev pub new_available : ℤ → Book → ℤ
new_available new_total book = pos book.available_copies +ℤ (new_total -ℤ pos book.total_copies)

abbrev pub with_copies : ℤ → Book → Book
with_copies new_total book = record book {
  total_copies = pos_part new_total;
  available_copies = pos_part (new_available new_total book);
}

unfoldable pub adjust_copies : Option (Option ℤ) → Book → M Book
adjust_copies none book = pure book
adjust_copies (some none) book = raise Error.type_error
adjust_copies (some (some new_total)) book = do
  raise_if (ltb_ℤ new_total (pos 0)) Error.value_error
  raise_if (ltb_ℤ (new_available new_total book) (pos 0)) Error.value_error
  pure (with_copies new_total book)

unfoldable pub update_book_body : Env → ℕ → List Attribute → M Book
unfolding adjust_copies
update_book_body env book_id update_data = do
  found ← Books.get_by_id_for_update env book_id
  loaded ← or_raise found Error.book_not_found
  raise_if loaded.is_deleted Error.book_not_found
  book ← adjust_copies (total_copies_of update_data) loaded
  let clean_update = select (λ a. not (is_total_copies a)) update_data
  Books.update book clean_update
  flush
  pure (Books.set_attributes book clean_update)

unfoldable pub update_book : Env → ℕ → List Attribute → M Book
unfolding update_book_body
update_book env book_id update_data = transactional (update_book_body env book_id update_data)

unfoldable pub delete_book_body : Env → ℕ → M (Unit {0})
delete_book_body env book_id = do
  success ← Books.delete env book_id
  raise_if (not success) Error.book_not_found
  flush

unfoldable pub delete_book : Env → ℕ → M (Unit {0})
unfolding delete_book_body
delete_book env book_id = transactional (delete_book_body env book_id)

unfoldable pub search_books :
    (String → String → Bool) → Option String → Option String → Option String → ℕ → ℕ → M (List Book)
search_books icontains text author genre skip limit =
    query (Books.search_books icontains text author genre skip limit)
