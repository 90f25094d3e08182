-- ===== src/Api/Sound.antt =====
-- The invariants of the library over the whole interface.
use production_library_manag.Prelude.{none, List}
use production_library_manag.Models.{User, Member, RefreshToken, Db}
use production_library_manag.Session.{Env, Session}
use production_library_manag.Session.Logic.{Ensures, both-Ensures}
use production_library_manag.Session.Safe.{IsSettled}
use production_library_manag.Services.Borrows.{Config}
use production_library_manag.Inventory.Defs.{IsBalanced, loans, holds, requests}
use production_library_manag.Limits.Loans.{Within}
use production_library_manag.Limits.Queue.{Orderly}
use production_library_manag.Requests.{Request, handle}
use production_library_manag.Requests.Balance.{handle-IsBalanced}
use production_library_manag.Requests.Loans.{handle-Within}
use production_library_manag.Requests.Queues.{handle-Orderly}
use production_library_manag.Api.Dependencies.{Http}
use production_library_manag.Api.Responses.{Route, Server, serve_all}
use production_library_manag.Api.History.{serve_all-IsSettled}

-- Every copy is accounted for, and loans and reservations are within their limits.
abbrev pub Sound : Config → Db → Type 0
Sound cfg d = IsBalanced none d × (Within cfg.max_borrow_limit d × Orderly d)

handle-Sound :
    (cfg : Config) (env : Env) (q : Request)
    → Ensures (Sound cfg) (handle env cfg q) (λ _. Sound cfg)
handle-Sound cfg env q =
    both-Ensures (handle env cfg q) (handle-IsBalanced env cfg q)
      (both-Ensures (handle env cfg q) (handle-Within env cfg q) (handle-Orderly env cfg q))

accounts-Sound :
    (cfg : Config) (d : Db) (us : List User) (ms : List Member) (ts : List RefreshToken)
    → Sound cfg d
    → Sound cfg (record d { users = us; members = ms; tokens = ts })
unfolding loans holds requests
accounts-Sound cfg d us ms ts h = (
  record { counted = h.0.counted; keyed = h.0.keyed },
  (
    record { within = h.1.0.within; unmarked = h.1.0.unmarked },
    record { within = h.1.1.within; single = h.1.1.single; keyed = h.1.1.keyed },
  ),
)

-- From a settled session whose database is sound (every copy of a book that is not deleted is on
-- the shelf, out or kept, and no loan or reservation is of a book that is not in the table; no
-- member is over the loan limit and no loan is marked OVERDUE; no member is over the reservation
-- limit or has two active reservations for one book; reservations have distinct ids), any history of routes, whoever calls them, with whatever
-- headers, clock, identifiers, lock conflicts, and whether a call is refused or fails midway,
-- ends in a settled session (no transaction is open, all is committed) whose database is sound.
pub serve_all-Sound :
    (srv : Server) (history : List (Http × Route)) (s : Session)
    → IsSettled (Sound srv.config) s
    → IsSettled (Sound srv.config) (serve_all srv history s)
serve_all-Sound srv =
    serve_all-IsSettled (Sound srv.config) srv (handle-Sound srv.config) (accounts-Sound srv.config)
