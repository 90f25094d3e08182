-- ===== src/Api/Telemetry.antt =====
-- What app/main.py counts and correlates: `operations_middleware` around the routes, and the
-- counters of the exception handlers. Starlette runs the handler of `Exception` in the outermost
-- layer, outside the middleware, and the other handlers inside it. A counter is the list of the
-- labels that it was incremented with.
use production_library_manag.Prelude.{
  ℕ, Option, none, some, true, List, [], ◌∷◌, ◌++◌, String, str_eq, if◌then◌else◌,
}
use production_library_manag.Errors.{Error, class_name}
use production_library_manag.Session.{Session, Result, ok, err}
use production_library_manag.Api.Dependencies.{Http}
use production_library_manag.Api.Responses.{
  Handler, handler_of, Response, handle_exception, Route, Server, serve,
}

pub record RequestLabels : Type 0 where
  pub method : String
  pub path : String
  pub status : ℕ

pub record ExceptionLabels : Type 0 where
  pub method : String
  pub path : String
  pub exception_type : String

pub record Telemetry : Type 0 where
  pub http_requests_total : List RequestLabels
  pub http_request_durations : List (String × String)
  pub http_exceptions_total : List ExceptionLabels

-- What the middleware reads of a request, and the UUID that it would draw.
pub record Call : Type 0 where
  pub method : String
  pub path : String
  pub request_id : Option String
  pub fresh_id : String

-- What is sent, with the header x-request-id.
pub record Answer : Type 0 where
  pub response : Response
  pub request_id : Option String

-- A layer of the application sends a response or lets an exception through.
pub data Passed {ℓ} (A : Type ℓ) : Type ℓ where
  responded : A → Passed A
  raised : Error → Passed A

unfoldable pub success_status : Route → ℕ
success_status (Route.create_book _ _ _ _ _) = 201
success_status (Route.borrow_book _) = 201
success_status (Route.place_reservation _) = 201
success_status (Route.register _ _ _) = 201
success_status (Route.logout _) = 204
success_status _ = 200

abbrev pub count_exception : Call → Error → Telemetry → Telemetry
count_exception call e t = record t {
  http_exceptions_total =
      t.http_exceptions_total
      ++ record { method = call.method; path = call.path; exception_type = class_name e } ∷ [];
}

-- The handlers inside the middleware.
abbrev pub handled : Call → Error → Handler → Telemetry → Passed Response × Telemetry
handled call e Handler.general_exception t = (raised e, t)
handled call e h t = (responded (handle_exception h e), count_exception call e t)

unfoldable pub call_next :
    {A : Type 0} → Call → ℕ → Result A → Telemetry → Passed Response × Telemetry
call_next call status (ok a) t = (responded (record { status = status; success = true }), t)
call_next call status (err e) t = handled call e (handler_of e) t

-- `req_id`: the header, unless it is missing or empty.
unfoldable pub correlation_id : Call → String
correlation_id call = elim call.request_id [
  | none ↦ call.fresh_id
  | some given ↦ if str_eq given "" then call.fresh_id else given
]

unfoldable pub operations_middleware :
    Call → Passed Response × Telemetry → Passed Answer × Telemetry
unfolding correlation_id
operations_middleware call (responded r, t) = (
  responded (record { response = r; request_id = some (correlation_id call) }),
  record t {
    http_requests_total =
        t.http_requests_total
        ++ record { method = call.method; path = call.path; status = r.status } ∷ [];
    http_request_durations = t.http_request_durations ++ (call.method, call.path) ∷ [];
  },
)
operations_middleware call (raised e, t) = (raised e, t)

-- `general_exception_handler`, in the outermost layer.
unfoldable pub server_error : Call → Passed Answer × Telemetry → Answer × Telemetry
server_error call (responded a, t) = (a, t)
server_error call (raised e, t) = (
  record { response = handle_exception Handler.general_exception e; request_id = none },
  count_exception call e t,
)

unfoldable pub respond_to : {A : Type 0} → Call → ℕ → Result A → Telemetry → Answer × Telemetry
unfolding call_next operations_middleware server_error
respond_to call status r t =
    server_error call (operations_middleware call (call_next call status r t))

pub record Conversation : Type 0 where
  pub answers : List Answer
  pub session : Session
  pub telemetry : Telemetry

abbrev and_before : Answer → Conversation → Conversation
and_before a c = record c { answers = a ∷ c.answers }

-- A history of calls, each with its request and route.
unfoldable pub converse : Server → List (Call × Http × Route) → Session → Telemetry → Conversation
unfolding respond_to
converse srv [] s t = record { answers = []; session = s; telemetry = t }
converse srv ((call, http, route) ∷ rest) s t =
    let x = serve srv http route s in
    let a = respond_to call (success_status route) x.0 t in
    and_before a.0 (converse srv rest x.1 a.1)
