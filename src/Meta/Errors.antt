-- ===== src/Meta/Errors.antt =====
-- The errors that the Meta client throws, as one data type: the subclasses of ApiError in
-- src/api/errors/ApiError.ts, and the plain errors of src/lib/meta/MetaGraphClient.ts. The texts of
-- the messages are left out.
use saral.Base.{ℕ, Option, none, some, String}

pub data MetaError : Type 0 where
  hashtag_not_found : String → MetaError
  auth : (code subcode : Option ℕ) → MetaError
  rate_limit : (code subcode : Option ℕ) → MetaError
  payload_too_large : (attempted_limit : ℕ) (code subcode : Option ℕ) → MetaError
  transient : (code subcode : Option ℕ) → MetaError
  request_rejected : (code subcode : Option ℕ) → MetaError
  http_error : (status : ℕ) → MetaError
  invalid_json : (status : ℕ) → MetaError
  schema_mismatch : MetaError
  unavailable : MetaError
  network : MetaError
  aborted : MetaError

-- The HTTP status and the code that an ApiError carries; `none` for a plain Error.
unfoldable pub api_status : MetaError → Option (ℕ × String)
api_status (hashtag_not_found name) = some (404, "HASHTAG_NOT_FOUND")
api_status (auth code subcode) = some (502, "META_AUTH_FAILED")
api_status (rate_limit code subcode) = some (429, "META_RATE_LIMITED")
api_status (payload_too_large attempted code subcode) = some (502, "META_PAYLOAD_TOO_LARGE")
api_status (transient code subcode) = some (502, "META_TRANSIENT_ERROR")
api_status (request_rejected code subcode) = some (502, "META_REQUEST_REJECTED")
api_status (http_error status) = some (502, "META_HTTP_ERROR")
api_status (invalid_json status) = some (502, "META_INVALID_JSON")
api_status schema_mismatch = some (502, "META_SCHEMA_MISMATCH")
api_status unavailable = some (502, "META_UNAVAILABLE")
api_status network = none
api_status aborted = none
