-- ===== src/Errors.antt =====
-- api/app/errors.py: the HTTP errors with their status, title and slug, the internal signals of
-- the services, and the exceptions of the libraries that can cross them.
use gpca_v.Prelude.{ℕ, String, Option, none, some, List}

-- the subclasses of `AppError`, itself the first
pub data ErrorKind : Type 0 where
  app_error bad_request unauthorized payment_failed forbidden not_found : ErrorKind
  conflict validation_failed too_many_requests : ErrorKind

abbrev pub status : ErrorKind → ℕ
status ErrorKind.app_error = 500
status bad_request = 400
status unauthorized = 401
status payment_failed = 402
status forbidden = 403
status not_found = 404
status conflict = 409
status validation_failed = 422
status too_many_requests = 429

abbrev pub title : ErrorKind → String
title ErrorKind.app_error = "Internal Server Error"
title bad_request = "Bad Request"
title unauthorized = "Unauthorized"
title payment_failed = "Payment Failed"
title forbidden = "Forbidden"
title not_found = "Not Found"
title conflict = "Conflict"
title validation_failed = "Validation Error"
title too_many_requests = "Too Many Requests"

abbrev pub slug : ErrorKind → String
slug ErrorKind.app_error = "internal-error"
slug bad_request = "bad-request"
slug unauthorized = "unauthorized"
slug payment_failed = "payment-failed"
slug forbidden = "forbidden"
slug not_found = "not-found"
slug conflict = "conflict"
slug validation_failed = "validation-error"
slug too_many_requests = "rate-limited"

-- one entry of a validation problem
pub record FieldError : Type 0 where
  pub field : String
  pub code : String
  pub message : String

pub record AppError : Type 0 where
  pub kind : ErrorKind
  pub detail : Option String
  pub errors : Option (List FieldError)

-- What can be raised: an `AppError`, the signals TokenExpired, TokenInvalid, AuthenticationFailed
-- and RefreshRejected, and what no handler but the last expects: SQLAlchemy's IntegrityError,
-- DataError and MultipleResultsFound, and the RuntimeError of `rotate_refresh_token`.
pub data Exn : Type 0 where
  http : AppError → Exn
  token_expired token_invalid authentication_failed refresh_rejected : Exn
  integrity_error data_error multiple_results runtime_error overflow_error : Exn

-- `Unauthorized(detail)` and `Forbidden(detail)`
abbrev pub raise_unauthorized : String → Exn
raise_unauthorized d = http (record { kind = unauthorized; detail = some d; errors = none })

abbrev pub raise_forbidden : String → Exn
raise_forbidden d = http (record { kind = forbidden; detail = some d; errors = none })
