-- ===== src/Api/Paging.antt =====
-- The envelope of a page of search results.
use production_library_manag.Prelude.{
  ℕ, ◌-◌, ◌*◌, ◌≡◌, ◌≤◌, refl, Option, String, Bool, List, length, length-take-le, arith,
}
use production_library_manag.Models.{Book}
use production_library_manag.Session.{Session, ok}
use production_library_manag.Repositories.Books as Rows
use production_library_manag.Services.Books
use production_library_manag.Api.Routes.{Page, envelope, search_books}

envelope_single :
    (page page_size : ℕ) (books : List Book)
    → length books ≤ page_size
    → (envelope page page_size books).pages ≡ 1
envelope_single page page_size books h = ground (arith, h)

-- A search always succeeds, and answers at most `page_size` books; whatever there is to be found
-- and whichever page is asked for, it says that there is one page, and that the total is the
-- number of books on this page.
pub search_books-single :
    (icontains : String → String → Bool) (page page_size : ℕ) (text author genre : Option String)
    (s : Session)
    → (p : Page) × (search_books icontains page page_size text author genre s ≡ (ok p, s))
      × (length p.items ≤ page_size)
      × (p.total ≡ length p.items)
      × (p.pages ≡ 1)
unfolding search_books Books.search_books Rows.search_books
search_books-single icontains page page_size text author genre s =
    let found : List Book =
      Rows.search_books icontains text author genre ((page - 1) * page_size) page_size s.db in
    let short : length found ≤ page_size = length-take-le page_size _ in
    (envelope page page_size found, refl, short, refl, envelope_single page page_size found short)
