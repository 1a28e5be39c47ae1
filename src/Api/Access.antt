-- ===== src/Api/Access.antt =====
-- Who may change what: requests without an identity, requests of a tenant and the rows of the others,
-- and the requests that read.
use eka_knowledge_assistant.Prelude.{◌≡◌, Result, ok, err}
use eka_knowledge_assistant.Api.{status_code}

-- What is raised is 401.
abbrev Raises401 : {A : Type 0} → Result A → Type 0
Raises401 (ok a) = Unit {0}
Raises401 (err e) = status_code e ≡ 401
