-- ===== src/Lifecycle/Records.antt =====
-- The loans over any history of routes.
use production_library_manag.Prelude.{ℕ, ◌≡◌, ◌≤◌, some, true, List}
use production_library_manag.Enums.{is_returned, max_renewals}
use production_library_manag.Models.{BorrowRecord, Db, borrow_key}
use production_library_manag.Session.{Env, Session}
use production_library_manag.Session.Logic.{Ensures}
use production_library_manag.Session.Safe.{IsSettled}
use production_library_manag.Repositories.Borrows
use production_library_manag.Services.Borrows.{Config}
use production_library_manag.Limits.Untouched
use production_library_manag.Requests.{Request, handle}
use production_library_manag.Requests.Settled.{respond-Ensures}
use production_library_manag.Api.Dependencies.{Http}
use production_library_manag.Api.Responses.{Route, Server, serve_all}
use production_library_manag.Api.History.{serve_all-IsSettled}
use production_library_manag.Lifecycle.Loans.{
  LoanStep, LoanPath, LoanPath-returned, IsRenewed, LoanPath-IsRenewed,
}
use production_library_manag.Lifecycle.Tables.{IsFollowed-refl}
use production_library_manag.Lifecycle.Lending.{
  period_of, Followed, borrow_book-Followed, return_book-Followed, renew_book-Followed,
}

module _ (cfg : Config) (start : Db) where
  abbrev P : Db → Type 0
  P = Followed cfg start

  handle-Followed : (env : Env) (q : Request) → Ensures P (handle env cfg q) (λ _. P)
  unfolding handle
  handle-Followed env (Request.create_book t a n total g) =
      respond-Ensures _
        ((Untouched.create_service-Preserves P (λ b d h. h) (λ b d h. h) env t a n total g).ensured)
  handle-Followed env (Request.update_book i l) =
      respond-Ensures _ ((Untouched.update_service-Preserves P (λ b d h. h) env i l).ensured)
  handle-Followed env (Request.delete_book i) =
      respond-Ensures _ ((Untouched.delete_service-Preserves P (λ b d h. h) env i).ensured)
  handle-Followed env (Request.borrow_book m i) =
      respond-Ensures _ ((borrow_book-Followed env cfg start m i).ensured)
  handle-Followed env (Request.return_book i) =
      respond-Ensures _ (return_book-Followed env cfg start i)
  handle-Followed env (Request.renew_book i) =
      respond-Ensures _ (renew_book-Followed env cfg start i)
  handle-Followed env (Request.place_reservation m i) =
      respond-Ensures _
        ((Untouched.place-Preserves P (λ b d h. h) env (λ r d h. h) (λ r d h. h) m i).ensured)
  handle-Followed env (Request.cancel_reservation i m) =
      respond-Ensures _ ((Untouched.cancel-Preserves P (λ b d h. h) env (λ r d h. h) i m).ensured)
  handle-Followed env Request.sweep =
      respond-Ensures _ ((Untouched.sweep-Preserves P (λ b d h. h) env (λ r d h. h)).ensured)

module _ (srv : Server) (history : List (Http × Route)) (s : Session) where
  serve_all-Followed :
      s.depth ≡ 0 → s.committed ≡ s.db → Followed srv.config s.db (serve_all srv history s).db
  serve_all-Followed outside saved =
      let begun : IsSettled (Followed srv.config s.db) s = record {
        outside = outside;
        saved = saved;
        kept = IsFollowed-refl (LoanStep (period_of srv.config)) s.db.borrows;
      } in
      (serve_all-IsSettled (Followed srv.config s.db) srv (handle-Followed srv.config s.db)
        (λ d us ms ts h. h) history s begun).kept

-- Between requests a loan is in the table: after any history of routes, whoever calls them, it
-- still is, under its id, with the member, the book and the borrow date that it had, and what has
-- changed of it is a sequence of renewals (each of a loan that was not returned and had been
-- renewed fewer than two times, each moving the due date by `renewal_days`) and at most one
-- return, the last.
pub serve_all-LoanPath :
    (srv : Server) (history : List (Http × Route)) (s : Session) (i : ℕ) (r : BorrowRecord)
    → s.depth ≡ 0
    → s.committed ≡ s.db
    → Borrows.get_by_id i s.db ≡ some r
    → (r' : BorrowRecord) × (Borrows.get_by_id i (serve_all srv history s).db ≡ some r')
      × LoanPath (period_of srv.config) r r'
unfolding Borrows.get_by_id
serve_all-LoanPath srv history s i r outside saved there =
    (serve_all-Followed srv history s outside saved).follow i r there

-- A loan that is returned is never changed again: after any history of routes its row is the same.
pub serve_all-returned :
    (srv : Server) (history : List (Http × Route)) (s : Session) (i : ℕ) (r : BorrowRecord)
    → s.depth ≡ 0
    → s.committed ≡ s.db
    → Borrows.get_by_id i s.db ≡ some r
    → is_returned r.status ≡ true
    → Borrows.get_by_id i (serve_all srv history s).db ≡ some r
serve_all-returned srv history s i r outside saved there back =
    let (r', found, path) = serve_all-LoanPath srv history s i r outside saved there in
    rw (← LoanPath-returned (period_of srv.config) r r' path back) found

-- Over any history of routes, a loan that has been renewed at most twice is still renewed at most
-- twice, never fewer times than before, and its due date has moved by exactly `renewal_days` for
-- each renewal since.
pub serve_all-IsRenewed :
    (srv : Server) (history : List (Http × Route)) (s : Session) (i : ℕ) (r : BorrowRecord)
    → s.depth ≡ 0
    → s.committed ≡ s.db
    → Borrows.get_by_id i s.db ≡ some r
    → r.renewal_count ≤ max_renewals
    → (r' : BorrowRecord) × (Borrows.get_by_id i (serve_all srv history s).db ≡ some r')
      × IsRenewed (period_of srv.config) r r'
serve_all-IsRenewed srv history s i r outside saved there few =
    let (r', found, path) = serve_all-LoanPath srv history s i r outside saved there in
    (r', found, LoanPath-IsRenewed (period_of srv.config) r r' path few)
