-- ===== src/Errors.antt =====
-- src/utils/exceptions.ts: the exceptions that the program throws.
use Prim.Native.Nat.{ℕ}
use Prim.Native.String.{String}
use mathlib.Core.Option.{Option, none}
use mathlib.Core.List.{List}

abbrev pub Details : Type 0
Details = List (String × String)

-- `APIException` and its subclasses; `name` is the name of the class.
pub record ApiException : Type 0 where
  pub name : String
  pub message : String
  pub status_code : ℕ
  pub error_code : String
  pub details : Option Details

-- What a promise is rejected with: an `APIException`, or any other `Error` with its message.
pub data Throwable : Type 0 where
  api : ApiException → Throwable
  plain : String → Throwable

-- `error.message`
abbrev pub message_of : Throwable → String
message_of (api e) = e.message
message_of (plain m) = m

unfoldable pub validation_error : String → Option Details → Throwable
validation_error message details = api (record {
  name = "ValidationError";
  message = message;
  status_code = 400;
  error_code = "VALIDATION_ERROR";
  details = details;
})

unfoldable pub authentication_error : String → Throwable
authentication_error message = api (record {
  name = "AuthenticationError";
  message = message;
  status_code = 401;
  error_code = "AUTHENTICATION_ERROR";
  details = none;
})

unfoldable pub authorization_error : String → Throwable
authorization_error message = api (record {
  name = "AuthorizationError";
  message = message;
  status_code = 403;
  error_code = "AUTHORIZATION_ERROR";
  details = none;
})

unfoldable pub not_found_error : String → Throwable
not_found_error message = api (record {
  name = "NotFoundError";
  message = message;
  status_code = 404;
  error_code = "NOT_FOUND";
  details = none;
})

unfoldable pub conflict_error : String → Throwable
conflict_error message = api (record {
  name = "ConflictError";
  message = message;
  status_code = 409;
  error_code = "CONFLICT";
  details = none;
})

unfoldable pub rate_limit_error : String → Throwable
rate_limit_error message = api (record {
  name = "RateLimitError";
  message = message;
  status_code = 429;
  error_code = "RATE_LIMIT_EXCEEDED";
  details = none;
})
