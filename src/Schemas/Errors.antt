-- ===== src/Schemas/Errors.antt =====
-- schemas/errors.py and core/http_handlers.py. The classes of `AuditFlowError` and the other
-- exceptions that the modelled code tells apart. Messages and details are for display and are left
-- out; `other` is any exception that no handler of the program names.
use audit_flow_ai.Base.{ℕ}

pub data ErrorClass : Type 0 where
  audit_flow_error : ErrorClass
  document_not_found : ErrorClass
  retrieval_error : ErrorClass
  generation_error : ErrorClass
  verification_error : ErrorClass
  ingestion_error : ErrorClass
  authentication_error : ErrorClass
  authorization_error : ErrorClass
  upstream_timeout : ErrorClass
  invalid_request : ErrorClass

unfoldable pub http_status : ErrorClass → ℕ
http_status audit_flow_error = 500
http_status document_not_found = 404
http_status retrieval_error = 502
http_status generation_error = 502
http_status verification_error = 502
http_status ingestion_error = 502
http_status authentication_error = 401
http_status authorization_error = 403
http_status upstream_timeout = 504
http_status invalid_request = 400

pub data Raised : Type 0 where
  audit : ErrorClass → Raised
  json_decode_error : Raised
  validation_error : Raised
  redis_connection_error : Raised
  timeout_error : Raised
  http_exception : ℕ → Raised
  other : Raised

-- The status that the client sees: `auditflow_error_handler`, FastAPI's own handler for an
-- `HTTPException`, and the catch-all `unhandled_error_handler`.
unfoldable pub status_of : Raised → ℕ
unfolding http_status
status_of (audit c) = http_status c
status_of (http_exception n) = n
status_of _ = 500
