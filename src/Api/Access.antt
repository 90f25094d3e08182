-- ===== src/Api/Access.antt =====
-- Who may call which route, and what the guards make of a call. Returning and renewing have no
-- guard in the code, though docs/01-functional-requirements.md denies them to the public.
use production_library_manag.Prelude.{
  ◌≡◌, refl, subst, ◌⊎◌, inl, inr, Option, none, some, Bool, true, false, arith,
}
use production_library_manag.Enums.{UserRole}
use production_library_manag.Errors.{Error, status_code}
use production_library_manag.Models.{User, Db}
use production_library_manag.Session.{
  M, Session, Result, ok, err, and_then, query, pure, or_raise, raise_if, ◌>>=◌,
}
use production_library_manag.Session.Logic.{Ensures, OnOk, weaken-Ensures}
use production_library_manag.Session.Looks.{Looks}
use production_library_manag.Requests.{respond}
use production_library_manag.Api.Dependencies.{
  Http, get_current_user, require_role, is_staff, is_member,
}
use production_library_manag.Api.Caller.{IsCaller, get_current_user-IsCaller, require_role-IsCaller}
use production_library_manag.Api.Reading.{get_current_user-Looks, require_role-Looks}
use production_library_manag.Api.Routes
use production_library_manag.Api.Responses.{Route, Server, serve}

-- The answers 401 Unauthorized and 403 Forbidden.
abbrev pub IsRefusal : Error → Type 0
IsRefusal e = (status_code e ≡ 401) ⊎ (status_code e ≡ 403)

abbrev OnErr : {A : Type 0} → Result A × Session → Type 0
OnErr (ok a, s) = Unit
OnErr (err e, s) = IsRefusal e

record Refuses {A : Type 0} (m : M A) : Type 0 where
  refusal : (s : Session) → OnErr (m s)

module _ {A : Type 0} where
  pure-Refuses : (a : A) → Refuses (pure a)
  pure-Refuses a = record { refusal = λ s. tt }

  query-Refuses : (f : Db → A) → Refuses (query f)
  query-Refuses f = record { refusal = λ s. tt }

  or_raise-Refuses : (o : Option A) (e : Error) → IsRefusal e → Refuses (or_raise o e)
  or_raise-Refuses none e h = record { refusal = λ s. h }
  or_raise-Refuses (some a) e h = record { refusal = λ s. tt }

  and_then-OnErr :
      {B : Type 0} (x : Result A × Session) (f : A → M B)
      → OnErr x
      → ((a : A) → Refuses (f a))
      → OnErr (and_then x f)
  and_then-OnErr (ok a, s) f h q = (q a).refusal s
  and_then-OnErr (err e, s) f h q = h

  >>=-Refuses :
      {B : Type 0} (m : M A) (f : A → M B)
      → Refuses m
      → ((a : A) → Refuses (f a))
      → Refuses (m >>= f)
  >>=-Refuses m f p q = record { refusal = λ s. and_then-OnErr (m s) f (p.refusal s) q }

raise_if-Refuses : (b : Bool) (e : Error) → IsRefusal e → Refuses (raise_if b e)
raise_if-Refuses true e h = record { refusal = λ s. h }
raise_if-Refuses false e h = record { refusal = λ s. tt }

unauthorized-IsRefusal : IsRefusal Error.unauthorized
unfolding status_code
unauthorized-IsRefusal = inl refl

inactive_user-IsRefusal : IsRefusal Error.inactive_user
unfolding status_code
inactive_user-IsRefusal = inr refl

forbidden-IsRefusal : IsRefusal Error.forbidden
unfolding status_code
forbidden-IsRefusal = inr refl

ruleset refuses = (
  pure-Refuses, query-Refuses, or_raise-Refuses, >>=-Refuses, raise_if-Refuses,
  unauthorized-IsRefusal, inactive_user-IsRefusal, forbidden-IsRefusal,
)

get_current_user-Refuses : (http : Http) → Refuses (get_current_user http)
unfolding get_current_user
get_current_user-Refuses http = search refuses depth 14

require_role-Refuses :
    (http : Http) (allowed : UserRole → Bool) → Refuses (require_role allowed http)
unfolding require_role
require_role-Refuses http allowed = search (refuses, get_current_user-Refuses) depth 8

-- Who may call the route: `none` for everyone, without authentication.
abbrev pub allowed_roles : Route → Option (UserRole → Bool)
allowed_roles (Route.create_book t a n total g) = some is_staff
allowed_roles (Route.search_books page page_size text author genre) = none
allowed_roles (Route.get_book i) = none
allowed_roles (Route.update_book i l) = some is_staff
allowed_roles (Route.delete_book i) = some is_staff
allowed_roles (Route.borrow_book i) = some (λ _. true)
allowed_roles (Route.return_book i) = none
allowed_roles (Route.renew_book i) = none
allowed_roles (Route.get_history page page_size) = some (λ _. true)
allowed_roles (Route.place_reservation i) = some is_member
allowed_roles (Route.cancel_reservation i) = some is_member
allowed_roles Route.list_active_reservations = some is_member
allowed_roles Route.sweep_expired_holds = some is_staff
allowed_roles Route.get_me = some (λ _. true)
allowed_roles (Route.get_dashboard_summary days) = some is_staff
allowed_roles (Route.register name email password) = none
allowed_roles (Route.login email password) = none
allowed_roles (Route.refresh token) = none
allowed_roles (Route.logout token) = none

-- Either an active user of an allowed role is behind the request, or the request is refused and
-- nothing has changed.
abbrev pub Guarded : (User → Db → Type 0) → Session → Result (Unit {0}) × Session → Type 0
Guarded Q s x = ((user : User) × Q user s.db) ⊎ ((e : Error) × (x ≡ (err e, s)) × IsRefusal e)

module _ (Q : User → Db → Type 0) {B : Type 0} (f : User → M B) (s : Session) where
  Guarded-cases :
      (x : Result User × Session)
      → x.1 ≡ s
      → OnOk Q x
      → OnErr x
      → Guarded Q s (and_then (and_then x f) (λ _. pure tt))
  Guarded-cases (ok u, s') e q r = inl (u, rw (← e) q)
  Guarded-cases (err x, s') e q r = inr (x, ground (arith, e), r)

  guarded :
      (m : M User)
      → Looks m
      → Ensures (λ _. Unit {0}) m Q
      → Refuses m
      → Guarded Q s (respond (m >>= f) s)
  guarded m l q r = Guarded-cases (m s) (l.same s) (q.on_ok s tt) (r.refusal s)

and_then-pure : {A : Type 0} (x : Result A × Session) → and_then x pure ≡ x
and_then-pure (ok a, s) = refl
and_then-pure (err e, s) = refl

-- The caller is known, and their role is allowed.
abbrev pub IsAuthorized : Http → (UserRole → Bool) → User → Db → Type 0
IsAuthorized http allowed user d = IsCaller http d user × (allowed user.role ≡ true)

abbrev Access : Http → Session → Result (Unit {0}) × Session → Option (UserRole → Bool) → Type 0
Access http s x none = Unit
Access http s x (some allowed) = Guarded (IsAuthorized http allowed) s x

module _ (srv : Server) (http : Http) (s : Session) where
  any_caller : Ensures (λ _. Unit {0}) (get_current_user http) (IsAuthorized http (λ _. true))
  any_caller = weaken-Ensures _ (get_current_user-IsCaller http) (λ u d h. (h, refl))

  Guarded-user :
      {B : Type 0} (f : User → M B)
      → Guarded (IsAuthorized http (λ _. true)) s (respond (get_current_user http >>= f) s)
  Guarded-user f =
      guarded _ f s (get_current_user http) (get_current_user-Looks http) any_caller
        (get_current_user-Refuses http)

  Guarded-role :
      {B : Type 0} (allowed : UserRole → Bool) (f : User → M B)
      → Guarded (IsAuthorized http allowed) s (respond (require_role allowed http >>= f) s)
  Guarded-role allowed f =
      guarded _ f s (require_role allowed http) (require_role-Looks http allowed)
        (require_role-IsCaller http allowed) (require_role-Refuses http allowed)

  Access-cases : (route : Route) → Access http s (serve srv http route s) (allowed_roles route)
  unfolding serve Routes.create_book Routes.update_book Routes.delete_book Routes.borrow_book
      Routes.get_history Routes.place_reservation Routes.cancel_reservation
      Routes.list_active_reservations Routes.sweep_expired_holds Routes.get_dashboard_summary
  Access-cases (Route.create_book t a n total g) = Guarded-role _ _
  Access-cases (Route.search_books page page_size text author genre) = tt
  Access-cases (Route.get_book i) = tt
  Access-cases (Route.update_book i l) = Guarded-role _ _
  Access-cases (Route.delete_book i) = Guarded-role _ _
  Access-cases (Route.borrow_book i) = Guarded-user _
  Access-cases (Route.return_book i) = tt
  Access-cases (Route.renew_book i) = tt
  Access-cases (Route.get_history page page_size) = Guarded-user _
  Access-cases (Route.place_reservation i) = Guarded-role _ _
  Access-cases (Route.cancel_reservation i) = Guarded-role _ _
  Access-cases Route.list_active_reservations = Guarded-role _ _
  Access-cases Route.sweep_expired_holds = Guarded-role _ _
  Access-cases Route.get_me =
      subst (λ x. Guarded (IsAuthorized http (λ _. true)) s (and_then x (λ _. pure tt)))
        (and_then-pure (get_current_user http s)) (Guarded-user pure)
  Access-cases (Route.get_dashboard_summary days) = Guarded-role _ _
  Access-cases (Route.register name email password) = tt
  Access-cases (Route.login email password) = tt
  Access-cases (Route.refresh token) = tt
  Access-cases (Route.logout token) = tt

-- A call of a guarded route: either the request carries a bearer token that is valid now, whose
-- subject is the id of an active user of the database, and that user's role is one that the route
-- allows; or the call is answered 401 or 403, and the session is as it was.
pub serve-IsAuthorized :
    (srv : Server) (http : Http) (route : Route) (allowed : UserRole → Bool) (s : Session)
    → allowed_roles route ≡ some allowed
    → Guarded (IsAuthorized http allowed) s (serve srv http route s)
serve-IsAuthorized srv http route allowed s h =
    subst (Access http s (serve srv http route s)) h (Access-cases srv http s route)
