-- ===== src/Repositories/Books.antt =====
-- app/repositories/book_repository.py. A soft-deleted book is invisible to every query here.
use production_library_manag.Prelude.{
  ℕ, Option, none, some, Bool, true, false, ◌&&◌, ◌||◌, not, List, [], ◌∷◌, String, str_eq,
  if◌then◌else◌, select,
}
use production_library_manag.Prelude.Int.{ℤ}
use production_library_manag.Prelude.Rows.{find, put, insert}
use production_library_manag.Models.{Book, Db, book_key}
use production_library_manag.Session.{
  M, Env, book_row, lock, query, query_one, modify, pure, ◌>>=◌, ◌>>◌,
}
use production_library_manag.Repositories.Base.{page_of}

-- The attributes that BookUpdateRequest (app/schemas/book.py) can carry, each with its value.
pub data Attribute : Type 0 where
  title author isbn genre : Option String → Attribute
  total_copies : Option ℤ → Attribute

abbrev pub live : Option Book → Option Book
live none = none
live (some b) = if b.is_deleted then none else some b

unfoldable pub get_by_id : ℕ → Db → Option Book
get_by_id i d = live (find i d.books)

unfoldable pub get_by_id_for_update : Env → ℕ → M (Option Book)
unfolding get_by_id
get_by_id_for_update env i = do lock env (book_row i); query (get_by_id i)

abbrev pub has_isbn : String → Book → Bool
has_isbn number b = elim b.isbn [ none ↦ false | some t ↦ str_eq t number ]

unfoldable pub get_by_isbn : String → M (Option Book)
get_by_isbn number = query_one (λ d. select (λ b. has_isbn number b && not b.is_deleted) d.books)

unfoldable pub get_all : ℕ → ℕ → Db → List Book
get_all skip limit d = page_of skip limit (select (λ b. not b.is_deleted) d.books)

-- A filter that is None or empty is not applied; a NULL column matches nothing.
-- `icontains` is the database's case-insensitive LIKE.
module _ (icontains : String → String → Bool) where
  abbrev column_matches : Option String → String → Bool
  column_matches none q = false
  column_matches (some t) q = icontains t q

  abbrev applies : (String → Bool) → Option String → Bool
  applies test none = true
  applies test (some q) = if str_eq q "" then true else test q

  unfoldable pub search_books :
      Option String → Option String → Option String → ℕ → ℕ → Db → List Book
  search_books text by_author by_genre skip limit d = page_of skip limit (
      select
        (λ b.
          not b.is_deleted
          && applies
              (λ q.
                column_matches b.title q || column_matches b.author q || column_matches b.isbn q)
              text
          && applies (column_matches b.author) by_author
          && applies (column_matches b.genre) by_genre)
        d.books)

-- `setattr(book, field, value)`; the service has taken `total_copies` out.
abbrev pub set_attribute : Book → Attribute → Book
set_attribute b (title v) = record b { title = v }
set_attribute b (author v) = record b { author = v }
set_attribute b (isbn v) = record b { isbn = v }
set_attribute b (genre v) = record b { genre = v }
set_attribute b (total_copies v) = b

unfoldable pub set_attributes : Book → List Attribute → Book
set_attributes b [] = b
set_attributes b (a ∷ as') = set_attributes (set_attribute b a) as'

abbrev pub save : Book → Db → Db
save b d = record d { books = put b d.books }

unfoldable pub update : Book → List Attribute → M (Unit {0})
unfolding set_attributes
update b attributes = modify (save (set_attributes b attributes))

abbrev pub added : Book → Db → Db
added b d = record d { books = insert b d.books }

unfoldable pub create : Book → M (Unit {0})
create b = modify (added b)

-- The soft delete; the answer is whether there was such a book.
unfoldable pub mark_deleted : Env → Option Book → M Bool
mark_deleted env none = pure false
mark_deleted env (some b) =
    modify (save (record b { is_deleted = true; deleted_at = some env.now })) >> pure true

unfoldable pub delete : Env → ℕ → M Bool
unfolding get_by_id mark_deleted
delete env i = query (get_by_id i) >>= mark_deleted env
