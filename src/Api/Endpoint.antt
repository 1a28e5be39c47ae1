-- ===== src/Api/Endpoint.antt =====
-- What FastAPI does around the function of a route: src/eka/api/errors.py and get_tenant_id of
-- src/eka/api/dependencies.py. A body is read as JSON before the dependencies of a route run, and its
-- fields are checked after them.
use eka_knowledge_assistant.Prelude.{
  ℕ, String, Bool, true, false, Option, Text, codes, Exception, validation_error,
  invariant_violation, state_transition_error, not_found_error, conflict_error,
  authentication_error, content_missing_error, Result, ok, err, Action,
}
use eka_knowledge_assistant.Documents.Document.{Uuid}
use eka_knowledge_assistant.Identity.{AuthenticatedIdentity}
use eka_knowledge_assistant.Api.{error_code, status_code}

-- A response: the value of the route with its status, or the envelope of an error. The empty
-- `details` and the list of pydantic's errors are left out.
pub data Reply (A : Type 0) : Type 0 where
  replied : ℕ → A → Reply A
  failed : (status : ℕ) (code : Text) (message : String) (request_id : Option Text) → Reply A

unfoldable pub reply_status : {A : Type 0} → Reply A → ℕ
reply_status (replied status a) = status
reply_status (failed status code message request_id) = status

-- The message of a domain error; what is not one gets a message of its own.
unfoldable pub error_message : Exception → String
error_message (validation_error m) = m
error_message (invariant_violation m) = m
error_message (state_transition_error m) = m
error_message (not_found_error m) = m
error_message (conflict_error m) = m
error_message (authentication_error m) = m
error_message (content_missing_error m) = m
error_message _ = "an unexpected error occurred"

-- The exception handlers and their envelope.
unfoldable pub error_reply : {A : Type 0} → Option Text → Exception → Reply A
error_reply request_id e = failed (status_code e) (error_code e) (error_message e) request_id

unfoldable pub request_validation : {A : Type 0} → Option Text → Reply A
request_validation request_id =
    failed 422 (codes "validation_error") "request validation failed" request_id

abbrev pub reply_of : {A : Type 0} → Option Text → ℕ → Result A → Reply A
reply_of request_id status (ok a) = replied status a
reply_of request_id status (err e) = error_reply request_id e

-- get_tenant_id
abbrev pub get_tenant_id : AuthenticatedIdentity → Uuid
get_tenant_id identity = identity.tenant_id

-- A route under get_tenant_id: its status, whether its parameters pass the schema, and its function.
unfoldable pub guarded :
    {S A : Type 0}
    → Option Text
    → Result AuthenticatedIdentity
    → ℕ
    → Bool
    → (Uuid → Action S A)
    → S
    → Reply A × S
guarded request_id (err e) status valid function s = (error_reply request_id e, s)
guarded request_id (ok identity) status false function s = (request_validation request_id, s)
guarded request_id (ok identity) status true function s =
    let r = function (get_tenant_id identity) s in (reply_of request_id status r.0, r.1)
