-- ===== src/Http/Errors.antt =====
-- The terminal handlers of src/api/middlewares/errorHandler.ts, and the errors of
-- src/api/errors/ApiError.ts that the read API throws. Logging, and the details that are copied
-- into a body, are left out.
use saral.Base.{ℕ, Bool, String, if◌then◌else◌}
use Prim.Native.String

-- An error that a route passes to `next`: Zod's, an ApiError, or any other.
pub data HttpError : Type 0 where
  zod_error : HttpError
  api_error : (status : ℕ) (code message : String) → HttpError
  other : (message : String) → HttpError

-- The constructors of BadRequestError and NotFoundError.
abbrev pub bad_request : String → HttpError
bad_request message = api_error 400 "BAD_REQUEST" message

abbrev pub not_found : String → HttpError
not_found message = api_error 404 "NOT_FOUND" message

pub record ErrorReply : Type 0 where
  pub status : ℕ
  pub code : String
  pub message : String

unfoldable pub error_handler : (is_production : Bool) → HttpError → ErrorReply
error_handler is_production zod_error = record {
  status = 400;
  code = "VALIDATION_FAILED";
  message = "Request validation failed";
}
error_handler is_production (api_error status code message) = record {
  status = status;
  code = code;
  message = message;
}
error_handler is_production (other message) = record {
  status = 500;
  code = "INTERNAL_ERROR";
  message = if is_production then "Internal server error" else message;
}

unfoldable pub not_found_handler : (method path : String) → ErrorReply
not_found_handler method path = record {
  status = 404;
  code = "NOT_FOUND";
  message = String.◌++◌ "No route matches " (String.◌++◌ method (String.◌++◌ " " path));
}
