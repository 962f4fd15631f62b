-- ===== src/OpenAi/Errors.antt =====
-- `ErrorKind` of src/openai/errors.hpp, with its status codes and type strings of errors.cpp.
use kvmux.Prelude.{ℕ, Bytes, codes}

pub data ErrorKind : Type 0 where
  invalid_request unknown_model not_found admission : ErrorKind
  upstream_failure no_backend upstream_timeout : ErrorKind

unfoldable pub status_code : ErrorKind → ℕ
status_code invalid_request = 400
status_code unknown_model = 404
status_code not_found = 404
status_code admission = 429
status_code upstream_failure = 502
status_code no_backend = 503
status_code upstream_timeout = 504

unfoldable pub error_type : ErrorKind → Bytes
error_type invalid_request = codes "invalid_request_error"
error_type unknown_model = codes "invalid_request_error"
error_type not_found = codes "not_found_error"
error_type admission = codes "rate_limit_error"
error_type upstream_failure = codes "upstream_error"
error_type no_backend = codes "service_unavailable_error"
error_type upstream_timeout = codes "timeout_error"
