-- ===== src/Api.antt =====
-- src/eka/api/errors.py and src/eka/shared/domain/errors.py: the code of a domain error and the status
-- of the response to an exception.
pub mod Endpoint
pub mod Middleware
pub mod Routes
pub mod Access
pub mod Reads
pub mod Scope
pub mod SourceTypes
pub mod Deletion
mod Tests
use eka_knowledge_assistant.Prelude.{
  ℕ, Text, codes, Exception, validation_error, invariant_violation, state_transition_error,
  not_found_error, conflict_error, authentication_error, content_missing_error,
}

-- The `code` of the exception's class; the handler of other exceptions sends `internal_error`.
unfoldable pub error_code : Exception → Text
error_code (validation_error m) = codes "validation_error"
error_code (invariant_violation m) = codes "invariant_violation"
error_code (state_transition_error m) = codes "invalid_state_transition"
error_code (not_found_error m) = codes "not_found"
error_code (conflict_error m) = codes "conflict"
error_code (authentication_error m) = codes "authentication_error"
error_code (content_missing_error m) = codes "content_missing"
error_code _ = codes "internal_error"

-- _STATUS_BY_CODE looks the exact type up, and domain errors that it does not have are 400.
unfoldable pub status_code : Exception → ℕ
status_code (validation_error m) = 422
status_code (invariant_violation m) = 400
status_code (state_transition_error m) = 409
status_code (not_found_error m) = 404
status_code (conflict_error m) = 409
status_code (authentication_error m) = 401
status_code (content_missing_error m) = 400
status_code _ = 500
