-- ===== src/Errors.antt =====
-- app/core/exceptions.py: the exception hierarchy, each exception with its message and code, and
-- the exceptions that are raised past it.
pub mod Handlers
use multimodal_rag.Prelude.{ℕ, Option, none, some, ◌++◌}
use multimodal_rag.Prelude.Text.{Text, text, show}

-- One constructor for each class; the arguments are those of its `__init__`.
pub data AppError : Type 0 where
  validation_error : Text → Option Text → AppError
  file_too_large : ℕ → AppError
  unsupported_file_type : AppError
  unauthorized : Text → AppError
  invalid_token : AppError
  forbidden : Text → AppError
  not_found : Text → AppError
  conflict : Text → AppError
  rate_limit_exceeded : ℕ → AppError
  internal : Text → AppError
  embedding : AppError
  retrieval : AppError
  generation : AppError
  parser : Text → AppError
  reranker : Text → AppError

unfoldable pub message : AppError → Text
unfolding text show
message (validation_error m field) = m
message (file_too_large max_mb) =
    text "File exceeds maximum allowed size of " ++ show max_mb ++ text "MB."
message unsupported_file_type = text "File type is not supported. Allowed: PDF, DOCX, EML, MSG."
message (unauthorized m) = m
message invalid_token = text "Token is invalid or expired."
message (forbidden m) = m
message (not_found resource) = resource ++ text " not found."
message (conflict m) = m
message (rate_limit_exceeded seconds) = text "Rate limit exceeded. Please slow down."
message (internal m) = m
message embedding = text "Document embedding failed. Please retry."
message retrieval = text "Retrieval failed. Please retry."
message generation = text "Answer generation failed. Please retry."
message (parser m) = m
message (reranker m) = m

unfoldable pub error_code : AppError → Text
unfolding text
error_code (validation_error m field) = text "VALIDATION_ERROR"
error_code (file_too_large max_mb) = text "FILE_TOO_LARGE"
error_code unsupported_file_type = text "UNSUPPORTED_FILE_TYPE"
error_code (unauthorized m) = text "UNAUTHORIZED"
error_code invalid_token = text "INVALID_TOKEN"
error_code (forbidden m) = text "FORBIDDEN"
error_code (not_found resource) = text "NOT_FOUND"
error_code (conflict m) = text "CONFLICT"
error_code (rate_limit_exceeded seconds) = text "RATE_LIMIT_EXCEEDED"
error_code (internal m) = text "INTERNAL_ERROR"
error_code embedding = text "INTERNAL_ERROR"
error_code retrieval = text "INTERNAL_ERROR"
error_code generation = text "INTERNAL_ERROR"
error_code (parser m) = text "INTERNAL_ERROR"
error_code (reranker m) = text "INTERNAL_ERROR"

-- What a Python call can raise here: an application error, FastAPI's `HTTPException`, or any other
-- exception.
pub data Exception : Type 0 where
  app : AppError → Exception
  http : ℕ → Text → Exception
  value_error : Exception
  other : Exception
