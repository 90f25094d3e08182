-- ===== src/Api/Counted.antt =====
-- What the counters of HTTP requests and exceptions say of a history of requests.
use production_library_manag.Prelude.{
  ◌+◌, ◌==◌, ◌≡◌, ◌≢◌, refl, none, some, Bool, true, false, not, List, [], ◌∷◌, arith, length,
  length-append, count, All, if◌then◌else◌,
}
use production_library_manag.Errors.{Error, class_name, status_code}
use production_library_manag.Session.{Session, Result, ok, err}
use production_library_manag.Api.Dependencies.{Http}
use production_library_manag.Api.Responses.{
  Handler, handler_of, handle_exception, Route, Server, serve,
}
use production_library_manag.Api.Telemetry.{
  Telemetry, Call, Answer, respond_to, call_next, operations_middleware, server_error,
  success_status, converse, handled,
}

abbrev pub uncorrelated : Answer → Bool
uncorrelated a = elim a.request_id [ none ↦ true | some _ ↦ false ]

abbrev pub failed : Answer → Bool
failed a = not a.response.success

-- One call moves the counters.
abbrev Moves : Telemetry → Answer → Telemetry → Type 0
Moves t a t' =
    (length t'.http_requests_total + (if uncorrelated a then 1 else 0)
      ≡ length t.http_requests_total + 1)
    × (length t'.http_exceptions_total
        ≡ length t.http_exceptions_total + (if failed a then 1 else 0))
    × (uncorrelated a ≡ (a.response.status == 500))

-- No exception of the application has the status 500.
status_code-ne : (e : Error) → handler_of e ≡ Handler.application_exception → status_code e ≢ 500
unfolding status_code
status_code-ne Error.value_error h = cc
status_code-ne Error.type_error h = cc
status_code-ne Error.operational_error h = cc
status_code-ne Error.multiple_results_found h = cc
status_code-ne Error.integrity_error h = cc
status_code-ne e h = ground arith

-- Nor has an answer of a route that succeeds.
success_status-ne : (route : Route) → success_status route ≢ 500
unfolding success_status
success_status-ne (Route.create_book _ _ _ _ _) = ground arith
success_status-ne route = ground arith

module _ (call : Call) (t : Telemetry) where
  handled-Moves :
      (e : Error) (h : Handler)
      → handler_of e ≡ h
      → (let x = server_error call (operations_middleware call (handled call e h t)) in
          Moves t x.0 x.1)
  unfolding server_error operations_middleware handle_exception
  handled-Moves e Handler.application_exception same = ground (
    arith,
    status_code-ne e same,
    length-append t.http_requests_total
        (record { method = call.method; path = call.path; status = status_code e } ∷ []),
    length-append t.http_exceptions_total
        (record { method = call.method; path = call.path; exception_type = class_name e } ∷ []),
  )
  handled-Moves e Handler.integrity_error same = ground (
    arith,
    length-append t.http_requests_total
        (record { method = call.method; path = call.path; status = 400 } ∷ []),
    length-append t.http_exceptions_total
        (record { method = call.method; path = call.path; exception_type = class_name e } ∷ []),
  )
  handled-Moves e Handler.general_exception same = ground (
    arith,
    length-append t.http_exceptions_total
        (record { method = call.method; path = call.path; exception_type = class_name e } ∷ []),
  )

  respond_to-Moves :
      {A : Type 0} (route : Route) (r : Result A)
      → (let x = respond_to call (success_status route) r t in Moves t x.0 x.1)
  unfolding respond_to call_next operations_middleware server_error
  respond_to-Moves route (err e) = handled-Moves e (handler_of e) refl
  respond_to-Moves route (ok a) = ground (
    arith,
    success_status-ne route,
    length-append t.http_requests_total
        (record { method = call.method; path = call.path; status = success_status route } ∷ []),
  )

-- Over any history of calls, however many fail: every call is either counted as a request or is
-- answered without a request id, which are exactly the answers with the status 500; and the
-- exceptions that are counted are the calls that failed.
pub converse-counted :
    (srv : Server) (history : List (Call × Http × Route)) (s : Session) (t : Telemetry)
    → (length (converse srv history s t).telemetry.http_requests_total
          + count uncorrelated (converse srv history s t).answers
        ≡ length t.http_requests_total + length history)
      × (length (converse srv history s t).telemetry.http_exceptions_total
          ≡ length t.http_exceptions_total + count failed (converse srv history s t).answers)
      × All (λ a. uncorrelated a ≡ (a.response.status == 500)) (converse srv history s t).answers
unfolding converse
converse-counted srv [] s t = (omega arith, omega arith, tt)
converse-counted srv ((call, http, route) ∷ rest) s t =
    let x = serve srv http route s in
    let a = respond_to call (success_status route) x.0 t in
    let moved = respond_to-Moves call t route x.0 in
    let later = converse-counted srv rest x.1 a.1 in
    (omega (arith, moved.0, later.0), omega (arith, moved.1, later.1), (moved.2, later.2))
