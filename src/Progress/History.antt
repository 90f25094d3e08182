-- ===== src/Progress/History.antt =====
-- The sweep goes through after any history of requests.
use production_library_manag.Prelude.{◌≡◌, none, true, false, List, count}
use production_library_manag.Models.{satisfies_constraints}
use production_library_manag.Session.{Env, Lock, Session, ok}
use production_library_manag.Session.Safe.{IsSettled}
use production_library_manag.Repositories.Reservations
use production_library_manag.Services.Reservations.{process_expired_holds}
use production_library_manag.Services.Borrows.{Config}
use production_library_manag.Inventory.Defs.{IsBalanced}
use production_library_manag.Requests.{Request, run}
use production_library_manag.Requests.Constraints.{run-Ordered}
use production_library_manag.Progress.Promotion.{Ordered}
use production_library_manag.Progress.Sweep.{process_expired_holds-succeeds}

-- From a settled session whose rows satisfy the constraints of the tables and in which every copy
-- is accounted for: after any history of requests, whatever locks were refused in it, a sweep in
-- which no lock is refused ends normally. It answers the number of holds that have expired, and
-- what it commits has none, satisfies the constraints, and has every copy accounted for.
pub process_expired_holds-run :
    (cfg : Config) (history : List (Env × Request)) (env : Env) (s : Session)
    → ((l : Lock) → env.conflict l ≡ false)
    → IsSettled Ordered s
    → ((process_expired_holds env (run cfg history s)).0
        ≡ ok (count (Reservations.is_expired_hold env.now) (run cfg history s).db.reservations))
      × (count
            (Reservations.is_expired_hold env.now)
            (process_expired_holds env (run cfg history s)).1.committed.reservations
          ≡ 0)
      × (satisfies_constraints (process_expired_holds env (run cfg history s)).1.committed ≡ true)
      × IsBalanced none (process_expired_holds env (run cfg history s)).1.committed
process_expired_holds-run cfg history env s free settled =
    let ended = run-Ordered cfg history s settled in
    process_expired_holds-succeeds env free (run cfg history s) ended.outside ended.kept.0
      ended.kept.1
