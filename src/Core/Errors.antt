-- ===== src/Core/Errors.antt =====
-- internal/core/errors.go: the errors of a request, by category, code and HTTP status. `detail` is the
-- argument of the constructor (a message, a parameter, a backend); the fixed texts and the fields that
-- only dress the JSON answer are left out.
use diffractllm.Base.{ℕ, String, Bool, true, false}

pub data ErrorCategory : Type 0 where
  client gateway provider : ErrorCategory

pub data ErrorCode : Type 0 where
  no_healthy_backends upstream_timeout upstream_error upstream_unavailable : ErrorCode
  missing_parameter invalid_parameter invalid_request_body auth_failed forbidden : ErrorCode
  budget_exceeded invalid_budget internal_error : ErrorCode

pub record DiffractError : Type 0 where
  pub category : ErrorCategory
  pub code : ErrorCode
  pub status_code : ℕ
  pub detail : String

abbrev error : ErrorCategory → ErrorCode → ℕ → String → DiffractError
error category code status_code detail = record {
  category = category;
  code = code;
  status_code = status_code;
  detail = detail;
}

unfoldable pub new_no_healthy_backends : String → DiffractError
new_no_healthy_backends = error gateway no_healthy_backends 503

unfoldable pub new_internal_error : String → DiffractError
new_internal_error = error gateway internal_error 500

unfoldable pub new_upstream_timeout : String → DiffractError
new_upstream_timeout = error provider upstream_timeout 504

unfoldable pub new_upstream_error : ℕ → String → DiffractError
new_upstream_error status_code = error provider upstream_error status_code

unfoldable pub new_upstream_unavailable : String → DiffractError
new_upstream_unavailable = error provider upstream_unavailable 502

unfoldable pub new_missing_parameter : String → DiffractError
new_missing_parameter = error client missing_parameter 400

unfoldable pub new_invalid_parameter : String → DiffractError
new_invalid_parameter = error client invalid_parameter 400

unfoldable pub new_auth_failed : String → DiffractError
new_auth_failed = error client auth_failed 401

unfoldable pub new_forbidden : String → DiffractError
new_forbidden = error client forbidden 403

unfoldable pub new_invalid_budget : String → DiffractError
new_invalid_budget = error gateway invalid_budget 500

unfoldable pub new_budget_exceeded : String → DiffractError
new_budget_exceeded = error client budget_exceeded 400

unfoldable pub new_invalid_request_body : String → DiffractError
new_invalid_request_body = error client invalid_request_body 400

unfoldable pub new_payload_too_large : DiffractError
new_payload_too_large = error client invalid_request_body 413 "request body exceeds max_body_size"

unfoldable pub new_unpriced_model : String → DiffractError
new_unpriced_model = error client invalid_request_body 400

unfoldable pub is_client : ErrorCategory → Bool
is_client client = true
is_client _ = false

unfoldable pub is_gateway : ErrorCategory → Bool
is_gateway gateway = true
is_gateway _ = false

unfoldable pub is_provider : ErrorCategory → Bool
is_provider provider = true
is_provider _ = false
