-- ===== src/Errors.antt =====
-- app/utils/errors.py: the errors that a client gets, with their HTTP status.
use noxis_api_provider.Prelude.{ℕ, String, Option, none}

pub record NoxisError : Type 0 where
  pub status_code : ℕ
  pub message : String
  pub type_ : String
  pub code : String
  pub param : Option String

-- The default code is NOXIS_INVALID_REQUEST.
unfoldable pub invalid_request_error : String → Option String → String → NoxisError
invalid_request_error message param code = record {
  status_code = 400;
  message = message;
  type_ = "invalid_request_error";
  code = code;
  param = param;
}

-- The errors that take a message only.
unfoldable pub plain_error : ℕ → String → String → String → NoxisError
plain_error status_code type_ code message = record {
  status_code = status_code;
  message = message;
  type_ = type_;
  code = code;
  param = none;
}

unfoldable pub authentication_error : String → NoxisError
unfolding plain_error
authentication_error = plain_error 401 "authentication_error" "NOXIS_AUTH_FAILED"

unfoldable pub permission_denied_error : String → NoxisError
unfolding plain_error
permission_denied_error = plain_error 403 "permission_error" "NOXIS_PERMISSION_DENIED"

unfoldable pub not_found_error : String → NoxisError
unfolding plain_error
not_found_error = plain_error 404 "invalid_request_error" "NOXIS_NOT_FOUND"

unfoldable pub payload_too_large_error : String → NoxisError
unfolding plain_error
payload_too_large_error = plain_error 413 "invalid_request_error" "NOXIS_PAYLOAD_TOO_LARGE"

unfoldable pub rate_limit_error : String → NoxisError
unfolding plain_error
rate_limit_error = plain_error 429 "rate_limit_error" "NOXIS_RATE_LIMITED"

unfoldable pub service_unavailable_error : String → NoxisError
unfolding plain_error
service_unavailable_error = plain_error 503 "service_unavailable" "NOXIS_ALL_PROVIDERS_FAILED"

unfoldable pub upstream_timeout_error : String → NoxisError
unfolding plain_error
upstream_timeout_error = plain_error 504 "timeout_error" "NOXIS_UPSTREAM_TIMEOUT"

unfoldable pub internal_error : String → NoxisError
unfolding plain_error
internal_error = plain_error 500 "internal_error" "NOXIS_INTERNAL_ERROR"
