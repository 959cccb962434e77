-- ===== src/Http.antt =====
-- internal/httputil/errors.go: the error responses, as values. The parts of a formatted message are
-- kept apart: `Text` is what is formatted.
use aegis_ai_gateway.Prelude.{ℕ, ℤ, String}

pub data Text : Type 0 where
  plain : String → Text
  -- `prefix + detail`
  joined : String → String → Text
  -- "Rate limit exceeded: %d requests per minute. Retry after %s"
  rate_exceeded : ℤ → ℕ → Text
  -- "Daily budget exceeded: spent %d of %d cents"
  budget_exceeded : ℤ → ℤ → Text

pub record ErrorResponse : Type 0 where
  pub status : ℕ
  pub error_type : String
  pub code : String
  pub message : Text
  pub request_id : String

unfoldable pub write_error : String → ℕ → String → String → Text → ErrorResponse
write_error request_id status error_type code message = record {
  status = status;
  error_type = error_type;
  code = code;
  message = message;
  request_id = request_id;
}

unfoldable pub write_auth_error : String → Text → ErrorResponse
unfolding write_error
write_auth_error id message = write_error id 401 "authentication_error" "invalid_api_key" message

unfoldable pub write_rate_limit_error : String → Text → ErrorResponse
unfolding write_error
write_rate_limit_error id message =
    write_error id 429 "rate_limit_error" "rate_limit_exceeded" message

unfoldable pub write_bad_request_error : String → Text → ErrorResponse
unfolding write_error
write_bad_request_error id message =
    write_error id 400 "invalid_request_error" "invalid_request" message

unfoldable pub write_internal_error : String → Text → ErrorResponse
unfolding write_error
write_internal_error id message = write_error id 500 "server_error" "internal_error" message

unfoldable pub write_service_unavailable_error : String → Text → ErrorResponse
unfolding write_error
write_service_unavailable_error id message =
    write_error id 503 "server_error" "service_unavailable" message

unfoldable pub write_content_blocked_error : String → Text → ErrorResponse
unfolding write_error
write_content_blocked_error id message =
    write_error id 451 "content_filter_error" "content_blocked" message

unfoldable pub write_budget_exceeded_error : String → Text → ErrorResponse
unfolding write_error
write_budget_exceeded_error id message = write_error id 402 "budget_error" "budget_exceeded" message

-- `HTTPError`, with which a stage of the refactored handler returns.
pub record HttpError : Type 0 where
  pub status_code : ℕ
  pub message : Text

-- `*http.Response` as far as the gateway reads it.
pub record HttpResponse : Type 0 where
  pub status_code : ℕ
  pub body : String
