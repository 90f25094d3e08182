-- ===== src/Examples/Stock.antt =====
-- The theorems on the number of copies, at a book of three copies with one on the shelf.
use production_library_manag.Prelude.{◌≡◌, refl, some, List, [], ◌∷◌, arith}
use production_library_manag.Prelude.Int.{pos}
use production_library_manag.Errors.{Error}
use production_library_manag.Models.{satisfies_constraints}
use production_library_manag.Session.{ok, err}
use production_library_manag.Repositories.Books
use production_library_manag.Repositories.Books.{Attribute, genre, total_copies}
use production_library_manag.Services.Books.{update_book}
use production_library_manag.Services.Books.Stock.{update_book-below, update_book-restocks}
use production_library_manag.Examples.{env, book, fresh, library}

abbrev to_one : List Attribute
to_one = total_copies (some (pos 1)) ∷ []

abbrev to_five : List Attribute
to_five = genre (some "Computing") ∷ total_copies (some (pos 5)) ∷ []

update_book-below_example :
    ((update_book env 10 to_one (fresh library)).0 ≡ err Error.value_error)
    × ((update_book env 10 to_one (fresh library)).1.db ≡ library)
unfolding Books.get_by_id
update_book-below_example =
    update_book-below env 10 1 to_one (fresh library) (book 3 1) (λ l. refl) refl refl refl
      (omega arith)

update_book-restocks_example :
    ((update_book env 10 to_five (fresh library)).0
      ≡ ok (record (book 5 3) { genre = some "Computing" }))
    × ((update_book env 10 to_five (fresh library)).1.committed
        ≡ Books.save (record (book 5 3) { genre = some "Computing" }) library)
unfolding Books.get_by_id Books.set_attributes satisfies_constraints
update_book-restocks_example =
    update_book-restocks env 10 5 to_five (fresh library) (book 3 1) (λ l. refl) refl refl refl
      (omega arith) refl
