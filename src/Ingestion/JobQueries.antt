-- ===== src/Ingestion/JobQueries.antt =====
-- src/eka/modules/ingestion/application/job_queries.py: the list of jobs. `order` is the database's
-- sort by `updated_at`, descending.
use eka_knowledge_assistant.Prelude.{
  ℕ, ◌≡◌, Bool, true, false, ◌&&◌, Option, none, some, [], ◌∷◌, map, arith, ◌==◌, length, take,
  drop, filter, Text, codes, text_eq,
}
use eka_knowledge_assistant.Shared.Pagination.{PageRequest, Page, has_more}
use eka_knowledge_assistant.Documents.Document.{Uuid}
use eka_knowledge_assistant.Ingestion.Jobs.{
  JobStatus, pending, processing, completed, dead_letter, IngestionJobModel, Jobs,
}

pub record JobDto : Type 0 where
  pub id : Uuid
  pub document_id : Uuid
  pub status : Text
  pub attempts : ℕ
  pub max_attempts : ℕ
  pub last_error : Option Text

unfoldable pub job_status_value : JobStatus → Text
job_status_value pending = codes "pending"
job_status_value processing = codes "processing"
job_status_value completed = codes "completed"
job_status_value dead_letter = codes "dead_letter"

pub record ListJobsQuery : Type 0 where
  pub tenant_id : Uuid
  pub page : PageRequest
  pub status : Option Text

-- `if query.status:` takes the empty string for no status.
abbrev pub has_status : Option Text → JobStatus → Bool
has_status none s = true
has_status (some []) s = true
has_status (some (c ∷ t)) s = text_eq (job_status_value s) (c ∷ t)

unfoldable pub job_dto : IngestionJobModel → JobDto
job_dto r = record {
  id = r.id;
  document_id = r.document_id;
  status = job_status_value r.status;
  attempts = r.attempts;
  max_attempts = r.max_attempts;
  last_error = r.last_error;
}

abbrev pub job_matches : ListJobsQuery → IngestionJobModel → Bool
job_matches query r = r.tenant_id == query.tenant_id && has_status query.status r.status

-- ListJobsHandler.handle
unfoldable pub list_jobs : (Jobs → Jobs) → ListJobsQuery → Jobs → Page JobDto
list_jobs order query jobs =
    let rows =
      take query.page.limit (drop query.page.offset (order (filter (job_matches query) jobs))) in
    let items = map job_dto rows in
    record {
      items = items;
      total = length items;
      limit = query.page.limit;
      offset = query.page.offset;
    }

-- The page of jobs never says that there are more, however many rows match the query.
pub no_more_jobs :
    (order : Jobs → Jobs) (query : ListJobsQuery) (jobs : Jobs)
    → has_more (list_jobs order query jobs) ≡ false
unfolding has_more list_jobs
no_more_jobs order query jobs = ground arith
