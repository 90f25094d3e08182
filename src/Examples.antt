-- ===== src/Examples.antt =====
-- The theorems at a small library: one book of three copies, three members.
pub mod Services
pub mod Auth
pub mod Stock
pub mod Dashboard
pub mod Api
pub mod Own
pub mod Progress
pub mod Operations
use production_library_manag.Prelude.{
  ℕ, ◌+◌, ◌*◌, ◌≡◌, ◌≤◌, ◌<◌, ◌↔◌, refl, Option, none, some, Bool, true, false, List, [], ◌∷◌,
  arith, count, ◌==◌, if◌then◌else◌,
}
use production_library_manag.Enums.{
  MembershipStatus, BorrowStatus, BookCondition, ReservationStatus, day, hour, second,
}
use production_library_manag.Errors.{Error}
use production_library_manag.Models.{
  Member, Book, BorrowRecord, Reservation, Db, satisfies_constraints,
}
use production_library_manag.Session.{Env, Lock, Session, Result, ok, err, transactional}
use production_library_manag.Repositories.Reservations
use production_library_manag.Services.Borrows.{default_config}
use production_library_manag.Inventory.Defs.{IsBalanced, loans, holds, requests}
use production_library_manag.Limits.Loans.{Within}
use production_library_manag.Limits.Queue.{Orderly}
use production_library_manag.Session.Atomic.{Atomically}
use production_library_manag.Requests.{Request, handle, run}
use production_library_manag.Session.Safe.{IsSettled}
use production_library_manag.Requests.Settled.{handle-Atomically}
use production_library_manag.Requests.Balance.{run-IsBalanced}
use production_library_manag.Requests.Loans.{run-Within}
use production_library_manag.Requests.Queues.{run-Orderly}

abbrev pub env : Env
env = record { now = 20 * day; uuid = λ n. 100 + n; conflict = λ _. false }

abbrev pub member : ℕ → Member
member i = record {
  id = i;
  user_id = i;
  membership_number = if i == 1 then "LMP-1" else if i == 2 then "LMP-2" else "LMP-3";
  joined_date = 0;
  membership_status = MembershipStatus.active;
  is_deleted = false;
  deleted_at = none;
}

abbrev pub book : ℕ → ℕ → Book
book total available = record {
  id = 10;
  isbn = some "9780262510875";
  title = some "Structure and Interpretation of Computer Programs";
  author = some "Abelson";
  genre = none;
  total_copies = total;
  available_copies = available;
  condition = BookCondition.good;
  is_deleted = false;
  deleted_at = none;
}

abbrev pub loan : BorrowRecord
loan = record {
  id = 20;
  member_id = 1;
  book_id = 10;
  borrow_date = 10 * day;
  due_date = 24 * day;
  return_date = none;
  renewal_count = 0;
  status = BorrowStatus.borrowed;
}

abbrev pub held : Reservation
held = record {
  id = 30;
  member_id = 2;
  book_id = 10;
  reserved_at = 5 * day;
  expires_at = some (19 * day);
  status = ReservationStatus.hold;
}

abbrev pub waiting : ℕ → ℕ → Reservation
waiting i t = record {
  id = i;
  member_id = 3;
  book_id = 10;
  reserved_at = t;
  expires_at = none;
  status = ReservationStatus.pending;
}

abbrev pub stock : Book → List BorrowRecord → List Reservation → Db
stock b out asked = record {
  users = [];
  members = member 1 ∷ member 2 ∷ member 3 ∷ [];
  books = b ∷ [];
  borrows = out;
  reservations = asked;
  tokens = [];
}

abbrev pub fresh : Db → Session
fresh d = record {
  db = d;
  committed = d;
  depth = 0;
  locks = [];
  metrics = record {
    active_borrowings = 0;
    active_reservations = 0;
    reservation_promotions = 0;
    dashboard_requests = 0;
  };
}

-- One copy on the shelf, one out, one kept; one member waits.
abbrev pub library : Db
library = stock (book 3 1) (loan ∷ []) (held ∷ waiting 31 (6 * day) ∷ [])

abbrev history : List (Env × Request)
history =
    (env, Request.sweep)
    ∷ (env, Request.return_book 20)
    ∷ (env, Request.borrow_book 3 10)
    ∷ (env, Request.borrow_book 1 99)
    ∷ []

pub library-IsBalanced : IsBalanced none library
unfolding loans holds requests
library-IsBalanced = record { counted = λ i. ground arith; keyed = ground arith }

library-Within : Within 5 library
library-Within = record { within = λ m. ground arith; unmarked = ground arith }

library-Orderly : Orderly library
library-Orderly = record {
  within = λ m. ground arith;
  single = λ m i. ground arith;
  keyed = ground arith;
}

settled : {P : Db → Type 0} → P library → IsSettled P (fresh library)
settled h = record { outside = refl; saved = refl; kept = h }

run-IsBalanced_example : IsSettled (IsBalanced none) (run default_config history (fresh library))
run-IsBalanced_example =
    run-IsBalanced default_config history (fresh library) (settled library-IsBalanced)

run-Within_example : IsSettled (Within 5) (run default_config history (fresh library))
run-Within_example = run-Within default_config history (fresh library) (settled library-Within)

run-Orderly_example : IsSettled Orderly (run default_config history (fresh library))
run-Orderly_example = run-Orderly default_config history (fresh library) (settled library-Orderly)

handle-Atomically_example :
    Atomically (fresh library) (handle env default_config (Request.return_book 20) (fresh library))
handle-Atomically_example =
    handle-Atomically env default_config (Request.return_book 20) (fresh library) refl
