-- ===== src/Api/Routes.antt =====
-- The routes of app/api/v1, each with its guards. The validation of bodies by pydantic is not
-- modelled, and an answer is the data that its JSON is made of.
use production_library_manag.Prelude.{
  ℕ, ◌+◌, ◌-◌, ◌*◌, ◌/◌, Option, none, some, Bool, ◌&&◌, ◌||◌, not, List, map, String, str_eq,
  str_append, leb, length, if◌then◌else◌,
}
use production_library_manag.Prelude.Rows.{find}
use production_library_manag.Enums.{is_pending}
use production_library_manag.Models.{User, Book, BorrowRecord, Reservation, book_key}
use production_library_manag.Session.{M, query, pure, ◌>>=◌}
use production_library_manag.Repositories.Books.{Attribute}
use production_library_manag.Repositories.Reservations.{compute_queue_position}
use production_library_manag.Repositories.Dashboard.{Sql}
use production_library_manag.Services.Books
use production_library_manag.Services.Reservations
use production_library_manag.Services.Borrows
use production_library_manag.Services.Borrows.{Config}
use production_library_manag.Services.Auth
use production_library_manag.Services.Auth.{ClientMetadata}
use production_library_manag.Services.Dashboard.{Summary, get_summary}
use production_library_manag.Api.Dependencies.{
  Http, get_current_user, require_role, is_staff, is_member, current_member,
}

-- books.py
unfoldable pub create_book :
    Http
    → (title author : Option String) (isbn : String) (total : ℕ) (genre : Option String) → M Book
create_book http title author isbn total genre = do
  current_user ← require_role is_staff http
  Books.create_book http.env title author isbn total genre

-- `PaginatedDataEnvelope`
pub record Page : Type 0 where
  pub items : List Book
  pub page : ℕ
  pub page_size : ℕ
  pub total : ℕ
  pub pages : ℕ

abbrev pub envelope : ℕ → ℕ → List Book → Page
envelope page page_size books =
    let total_records = length books in
    record {
      items = books;
      page = page;
      page_size = page_size;
      total = total_records;
      pages =
          if leb total_records page_size then 1 else (total_records + page_size - 1) / page_size;
    }

unfoldable pub search_books :
    (String → String → Bool) → (page page_size : ℕ) (text author genre : Option String) → M Page
search_books icontains page page_size text author genre = do
  books ← Books.search_books icontains text author genre ((page - 1) * page_size) page_size
  pure (envelope page page_size books)

unfoldable pub update_book : Http → ℕ → List Attribute → M Book
update_book http book_id update_dict = do
  current_user ← require_role is_staff http
  Books.update_book http.env book_id update_dict

unfoldable pub delete_book : Http → ℕ → M (Unit {0})
delete_book http book_id = do
  current_user ← require_role is_staff http
  Books.delete_book http.env book_id

-- borrow.py
unfoldable pub borrow_book : Http → Config → ℕ → M BorrowRecord
borrow_book http cfg book_id = do
  current_user ← get_current_user http
  member ← current_member current_user
  Borrows.borrow_book http.env cfg member.id book_id

pub record ReturnResponse : Type 0 where
  pub loan : BorrowRecord
  pub fine_amount : ℕ

-- `getattr(record, "fine_amount", 0.0)`
abbrev pub fine_or_zero : Option ℕ → ℕ
fine_or_zero none = 0
fine_or_zero (some fine) = fine

abbrev pub return_response : BorrowRecord × Option ℕ → ReturnResponse
return_response (loan, fine) = record { loan = loan; fine_amount = fine_or_zero fine }

unfoldable pub return_book : Http → Config → ℕ → M ReturnResponse
return_book http cfg borrow_id = do
  answer ← Borrows.return_book http.env cfg borrow_id
  pure (return_response answer)

unfoldable pub renew_book : Http → Config → ℕ → M BorrowRecord
renew_book http cfg borrow_id = Borrows.renew_book http.env cfg borrow_id

abbrev pub title_of : Option Book → Option String
title_of none = none
title_of (some b) = b.title

unfoldable pub get_history : Http → (page page_size : ℕ) → M (List (BorrowRecord × Option String))
get_history http page page_size = do
  current_user ← get_current_user http
  member ← current_member current_user
  records ← Borrows.get_borrow_history member.id page page_size
  query (λ d. map (λ r. (r, title_of (find r.book_id d.books))) records)

-- reservations.py
unfoldable pub queue_position : Reservation → M (Option ℕ)
queue_position res =
    if is_pending res.status
    then query (λ d. some (compute_queue_position res.book_id res.reserved_at d))
    else pure none

unfoldable pub place_reservation : Http → ℕ → M (Reservation × Option ℕ)
unfolding queue_position
place_reservation http book_id = do
  current_user ← require_role is_member http
  member ← current_member current_user
  res ← Reservations.place_reservation http.env member.id book_id
  pos ← queue_position res
  pure (res, pos)

unfoldable pub cancel_reservation : Http → ℕ → M Reservation
cancel_reservation http reservation_id = do
  current_user ← require_role is_member http
  member ← current_member current_user
  Reservations.cancel_reservation http.env reservation_id member.id

unfoldable pub list_active_reservations : Http → M (List (Reservation × Option ℕ))
list_active_reservations http = do
  current_user ← require_role is_member http
  member ← current_member current_user
  Reservations.get_active_reservations member.id

unfoldable pub sweep_expired_holds : Http → M ℕ
sweep_expired_holds http = do
  current_user ← require_role is_staff http
  Reservations.process_expired_holds http.env

-- dashboard.py
unfoldable pub get_dashboard_summary : Http → Sql → ℕ → M Summary
get_dashboard_summary http sql days = do
  current_user ← require_role is_staff http
  get_summary sql http.env days

-- auth.py; `contains` is Python's `in` on strings, the needle first.
module _ (contains : String → String → Bool) where
  abbrev browser_of : String → String
  browser_of ua =
      if contains "chrome" ua
      then "Chrome"
      else if contains "firefox" ua
      then "Firefox"
      else if contains "safari" ua && not (contains "chrome" ua)
      then "Safari"
      else if contains "edge" ua
      then "Edge"
      else "Unknown Browser"

  -- The first test is on the variable `os`, which is "Unknown OS" there.
  abbrev os_of : String → String
  os_of ua =
      if contains "windows" "Unknown OS" || contains "win64" ua || contains "wow64" ua
      then "Windows"
      else if contains "macintosh" ua || contains "mac os" ua
      then "macOS"
      else if contains "linux" ua
      then "Linux"
      else if contains "android" ua
      then "Android"
      else if contains "iphone" ua || contains "ipad" ua
      then "iOS"
      else "Unknown OS"

  abbrev device_of : String → String
  device_of ua = str_append (browser_of ua) (str_append " on " (os_of ua))

  unfoldable pub parse_device_name : (String → String) → Option String → String
  parse_device_name lower none = "Unknown Device"
  parse_device_name lower (some user_agent) =
      if str_eq user_agent "" then "Unknown Device" else device_of (lower user_agent)

  abbrev host_of : Option String → String
  host_of none = "127.0.0.1"
  host_of (some host) = host

  abbrev pub client_metadata : Http → ClientMetadata
  client_metadata http = record {
    ip_address = some (host_of http.client_host);
    user_agent = http.user_agent;
    device_name = some (parse_device_name http.lower http.user_agent);
  }

  unfoldable pub login : Http → (email password : String) → M (String × String)
  login http email password = Auth.login http.env http.crypto email password (client_metadata http)

  unfoldable pub refresh : Http → String → M (String × String)
  refresh http token = Auth.refresh_token http.env http.crypto token (client_metadata http)

unfoldable pub register : Http → (name email password : String) → M User
register http name email password = Auth.register http.env http.crypto name email password

unfoldable pub logout : Http → String → M (Unit {0})
logout http token = Auth.logout http.crypto token
