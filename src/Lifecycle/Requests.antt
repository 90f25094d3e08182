-- ===== src/Lifecycle/Requests.antt =====
-- The reservations over any history of routes.
use production_library_manag.Prelude.{ℕ, ◌≡◌, none, some, false, List}
use production_library_manag.Prelude.Rows.{find}
use production_library_manag.Enums.{is_active_reservation}
use production_library_manag.Models.{User, Member, RefreshToken, Reservation, Db, reservation_key}
use production_library_manag.Session.{M, Env, Session}
use production_library_manag.Session.Logic.{
  Ensures, strengthen-Ensures, weaken-Ensures, both-Ensures,
}
use production_library_manag.Session.Preserve.{Preserves, preserves, modify-Preserves}
use production_library_manag.Session.Safe.{IsSettled}
use production_library_manag.Services.Reservations
use production_library_manag.Repositories.Reservations as Rows
use production_library_manag.Services.Borrows.{Config}
use production_library_manag.Inventory.Defs.{IsBalanced, loans, holds, requests}
use production_library_manag.Limits.Untouched
use production_library_manag.Requests.{Request, respond, handle}
use production_library_manag.Requests.Settled.{respond-Ensures}
use production_library_manag.Requests.Balance.{handle-IsBalanced}
use production_library_manag.Api.Dependencies.{Http}
use production_library_manag.Api.Responses.{Route, Server, serve_all}
use production_library_manag.Api.History.{serve_all-IsSettled}
use production_library_manag.Lifecycle.Tables.{IsFollowed, IsFollowed-refl, insert-IsFollowed}
use production_library_manag.Lifecycle.Waiting.{
  ReservationStep, ReservationPath, ReservationPath-closed,
}
use production_library_manag.Lifecycle.Queueing.{Queued, cancel_reservation-Queued}
use production_library_manag.Lifecycle.Serving.{
  process_expired_holds-Queued, borrow_book-Queued, return_book-Queued, renew_book-Queued,
}

module _ (cfg : Config) (start : Db) where
  -- What has become of the reservations.
  abbrev F : Db → Type 0
  F d = IsFollowed ReservationStep start.reservations d.reservations

  abbrev P : Db → Type 0
  P d = IsBalanced none d × F d

  untouched : {A : Type 0} (m : M A) → Preserves F m → Ensures P (respond m) (λ _. F)
  untouched m p = strengthen-Ensures (respond m) (λ d h. h.1) (respond-Ensures m p.ensured)

  moved :
      {A : Type 0} (m : M A)
      → Ensures (Queued start) m (λ _. Queued start)
      → Ensures P (respond m) (λ _. F)
  moved m p =
      weaken-Ensures (respond m)
        (strengthen-Ensures (respond m) (λ d h. (h.0.keyed, h.1)) (respond-Ensures m p))
        (λ _ d h. h.1)

  place_reservation-followed :
      (env : Env) (m i : ℕ) → Preserves F (Reservations.place_reservation env m i)
  unfolding Reservations.place_reservation Reservations.place_reservation_body Rows.create
  place_reservation-followed env m i =
      let added : (r : Reservation) (d : Db) → F d → F (Rows.added r d) =
        λ r d h. insert-IsFollowed ReservationStep start.reservations d.reservations h r in
      search
        (
          preserves, Untouched.get_book-Preserves, Untouched.check_request-Preserves,
          modify-Preserves, added,
        )
        depth 14

  handle-followed : (env : Env) (q : Request) → Ensures P (handle env cfg q) (λ _. F)
  unfolding handle
  handle-followed env (Request.create_book t a n total g) =
      untouched _ (Untouched.create_service-Preserves F (λ b d h. h) (λ b d h. h) env t a n total g)
  handle-followed env (Request.update_book i l) =
      untouched _ (Untouched.update_service-Preserves F (λ b d h. h) env i l)
  handle-followed env (Request.delete_book i) =
      untouched _ (Untouched.delete_service-Preserves F (λ b d h. h) env i)
  handle-followed env (Request.borrow_book m i) =
      moved _ ((borrow_book-Queued start env cfg m i).ensured)
  handle-followed env (Request.return_book i) =
      moved _ ((return_book-Queued start env cfg i).ensured)
  handle-followed env (Request.renew_book i) = moved _ ((renew_book-Queued start env cfg i).ensured)
  handle-followed env (Request.place_reservation m i) =
      untouched _ (place_reservation-followed env m i)
  handle-followed env (Request.cancel_reservation i m) =
      moved _ (cancel_reservation-Queued start env i m)
  handle-followed env Request.sweep = moved _ (process_expired_holds-Queued start env)

  handle-both : (env : Env) (q : Request) → Ensures P (handle env cfg q) (λ _. P)
  handle-both env q =
      strengthen-Ensures _ (λ d h. (h.0, h))
        (both-Ensures _ (handle-IsBalanced env cfg q) (handle-followed env q))

accounts-P :
    (cfg : Config) (start d : Db) (us : List User) (ms : List Member) (ts : List RefreshToken)
    → P cfg start d
    → P cfg start (record d { users = us; members = ms; tokens = ts })
unfolding loans holds requests
accounts-P cfg start d us ms ts h = (record { counted = h.0.counted; keyed = h.0.keyed }, h.1)

-- Between requests, while every copy is accounted for, a reservation is in the table: after any
-- history of routes, whoever calls them, it still is, under its id, with the member, the book and
-- the place in the queue that it had, and what has changed of it is a sequence of the steps
-- PENDING to HOLD, PENDING or HOLD to CANCELLED, HOLD to COMPLETED and HOLD to EXPIRED.
pub serve_all-ReservationPath :
    (srv : Server) (history : List (Http × Route)) (s : Session) (i : ℕ) (r : Reservation)
    → IsSettled (IsBalanced none) s
    → find i s.db.reservations ≡ some r
    → (r' : Reservation) × (find i (serve_all srv history s).db.reservations ≡ some r')
      × ReservationPath r r'
serve_all-ReservationPath srv history s i r begun there =
    let settled : IsSettled (P srv.config s.db) s = record {
      outside = begun.outside;
      saved = begun.saved;
      kept = (begun.kept, IsFollowed-refl ReservationStep s.db.reservations);
    } in
    let ended =
      serve_all-IsSettled (P srv.config s.db) srv (handle-both srv.config s.db)
        (accounts-P srv.config s.db) history s settled in
    ended.kept.1.follow i r there

-- A reservation that is COMPLETED, CANCELLED or EXPIRED is never changed again: after any history
-- of routes, begun between requests while every copy is accounted for, its row is the same.
pub serve_all-closed :
    (srv : Server) (history : List (Http × Route)) (s : Session) (i : ℕ) (r : Reservation)
    → IsSettled (IsBalanced none) s
    → find i s.db.reservations ≡ some r
    → is_active_reservation r.status ≡ false
    → find i (serve_all srv history s).db.reservations ≡ some r
serve_all-closed srv history s i r begun there closed =
    let (r', found, path) = serve_all-ReservationPath srv history s i r begun there in
    rw (← ReservationPath-closed r r' path closed) found
