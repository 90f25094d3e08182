-- ===== src/Errors.antt =====
-- The exceptions of app/core/exceptions.py with their HTTP status, the built-in and library
-- exceptions that the services let through, and the handlers of app/main.py that answer them.
use production_library_manag.Prelude.{ℕ, String}

pub data Error : Type 0 where
  invalid_credentials email_already_exists inactive_user token_expired token_revoked : Error
  invalid_refresh_token unauthorized forbidden : Error
  book_not_found book_unavailable book_deleted borrow_limit_exceeded member_inactive : Error
  member_suspended book_already_returned renewal_limit_exceeded overdue_member : Error
  concurrent_borrow reservation_limit_exceeded already_reserved book_already_borrowed : Error
  reservation_not_found reservation_not_held : Error
  -- `ValueError` and `TypeError`
  value_error type_error : Error
  -- SQLAlchemy's `OperationalError`, `IntegrityError` and `MultipleResultsFound`
  operational_error integrity_error multiple_results_found : Error

-- The status of the response that the exception handlers send.
unfoldable pub status_code : Error → ℕ
status_code Error.invalid_credentials = 401
status_code Error.email_already_exists = 400
status_code Error.inactive_user = 403
status_code Error.token_expired = 401
status_code Error.token_revoked = 401
status_code Error.invalid_refresh_token = 401
status_code Error.unauthorized = 401
status_code Error.forbidden = 403
status_code Error.book_not_found = 404
status_code Error.book_unavailable = 400
status_code Error.book_deleted = 400
status_code Error.borrow_limit_exceeded = 400
status_code Error.member_inactive = 403
status_code Error.member_suspended = 403
status_code Error.book_already_returned = 400
status_code Error.renewal_limit_exceeded = 400
status_code Error.overdue_member = 400
status_code Error.concurrent_borrow = 409
status_code Error.reservation_limit_exceeded = 400
status_code Error.already_reserved = 400
status_code Error.book_already_borrowed = 400
status_code Error.reservation_not_found = 404
status_code Error.reservation_not_held = 400
status_code Error.integrity_error = 400
status_code Error.value_error = 500
status_code Error.type_error = 500
status_code Error.operational_error = 500
status_code Error.multiple_results_found = 500

-- `exc.__class__.__name__`
unfoldable pub class_name : Error → String
class_name Error.invalid_credentials = "InvalidCredentialsException"
class_name Error.email_already_exists = "EmailAlreadyExistsException"
class_name Error.inactive_user = "InactiveUserException"
class_name Error.token_expired = "TokenExpiredException"
class_name Error.token_revoked = "TokenRevokedException"
class_name Error.invalid_refresh_token = "InvalidRefreshTokenException"
class_name Error.unauthorized = "UnauthorizedException"
class_name Error.forbidden = "ForbiddenException"
class_name Error.book_not_found = "BookNotFoundException"
class_name Error.book_unavailable = "BookUnavailableException"
class_name Error.book_deleted = "BookDeletedException"
class_name Error.borrow_limit_exceeded = "BorrowLimitExceededException"
class_name Error.member_inactive = "MemberInactiveException"
class_name Error.member_suspended = "MemberSuspendedException"
class_name Error.book_already_returned = "BookAlreadyReturnedException"
class_name Error.renewal_limit_exceeded = "RenewalLimitExceededException"
class_name Error.overdue_member = "OverdueMemberException"
class_name Error.concurrent_borrow = "ConcurrentBorrowException"
class_name Error.reservation_limit_exceeded = "ReservationLimitExceededException"
class_name Error.already_reserved = "AlreadyReservedException"
class_name Error.book_already_borrowed = "BookAlreadyBorrowedException"
class_name Error.reservation_not_found = "ReservationNotFoundException"
class_name Error.reservation_not_held = "ReservationNotHeldException"
class_name Error.value_error = "ValueError"
class_name Error.type_error = "TypeError"
class_name Error.operational_error = "OperationalError"
class_name Error.integrity_error = "IntegrityError"
class_name Error.multiple_results_found = "MultipleResultsFound"
